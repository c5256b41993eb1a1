-- ===== src/Grants/Revoke.antt =====
-- service/grants.py: revoke and list_grants
pub mod Effect
use markland.Prelude.{
  String, Bool, true, false, Option, none, some, List, [], ◌∷◌, ◌==◌, not, ◌&&◌, select, order_desc,
  if◌then◌else◌,
}
use markland.Model.{Principal, Document, Grant, text, Fresh}
use markland.Effects.{Action, Result, ok, err, ◌>>=◌, ◌>>◌, pure, reads, gets}
use markland.Db.Documents.{get_document, rotate_share_token}
use markland.Db.Grants.{delete_grant, list_grants_for_doc}
use markland.Db.Audit.{record_audit}
use markland.Permissions.{Access, check_permission}

pub record Revoked : Type 0 where
  pub revoked : Bool
  pub doc_id : String
  pub principal_id : String

-- `doc is not None and not doc.is_public`
abbrev pub is_private : Option Document → Bool
is_private none = false
is_private (some doc) = not doc.is_public

-- A private document gets a new share token, so that the old link is dead.
unfoldable pub after_revoke : Fresh → Principal → String → String → Action (Unit {0})
after_revoke fresh principal doc_id principal_id = do
  record_audit fresh "revoke" principal (some doc_id)
      (("target_principal_id", text principal_id) ∷ [])
  doc ← gets λ db. get_document db doc_id
  if is_private doc then (do rotate_share_token fresh doc_id; pure tt) else pure tt

unfoldable pub revoke : Fresh → Principal → String → String → Action Revoked
unfolding after_revoke
revoke fresh principal doc_id principal_id = do
  reads λ db. check_permission db principal doc_id Access.owner
  deleted ← delete_grant doc_id principal_id
  if deleted then after_revoke fresh principal doc_id principal_id else pure tt
  pure (record { revoked = deleted; doc_id = doc_id; principal_id = principal_id })

unfoldable pub list_grants : Principal → String → Action (List Grant)
list_grants principal doc_id = do
  reads λ db. check_permission db principal doc_id Access.edit
  gets λ db. list_grants_for_doc db doc_id
