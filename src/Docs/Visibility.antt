-- ===== src/Docs/Visibility.antt =====
-- service/docs.py: set_visibility and feature
pub mod Rotation
use markland.Prelude.{String, Bool, true, false, Option, none, some, not, ◌&&◌, if◌then◌else◌}
use markland.Model.{Principal, Document, Fresh}
use markland.Effects.{
  Action, Result, ok, err, ◌>>=◌, ◌>>◌, pure, raise, reads, gets, guard, or_raise,
  permission_denied, not_found, assertion_error,
}
use markland.Db.Documents.{
  get_document, set_visibility as db_set_visibility, set_featured, rotate_share_token,
}
use markland.Permissions.{Access, check_permission, document_text}
use markland.Docs.Content.{share_url}

pub record Visibility : Type 0 where
  pub id : String
  pub is_public : Bool
  pub share_url : String

-- `prior is not None and prior.is_public`
abbrev pub was_public : Option Document → Bool
was_public none = false
was_public (some doc) = doc.is_public

unfoldable pub set_visibility : Fresh → String → Principal → String → Bool → Action Visibility
set_visibility fresh base_url principal doc_id is_public = do
  reads λ db. check_permission db principal doc_id Access.owner
  prior ← gets λ db. get_document db doc_id
  updated ← db_set_visibility fresh doc_id is_public
  doc ← reads λ _. or_raise updated assertion_error
  doc' ←
      if was_public prior && not is_public
      then (do
        rotated ← rotate_share_token fresh doc_id
        reads λ _. or_raise rotated assertion_error)
      else pure doc
  pure (record {
    id = doc'.id;
    is_public = doc'.is_public;
    share_url = share_url base_url doc'.share_token;
  })

pub record Featured : Type 0 where
  pub id : String
  pub is_featured : Bool
  pub is_public : Bool

unfoldable pub feature : Principal → String → Bool → Action Featured
feature principal doc_id is_featured = do
  reads λ _. guard principal.is_admin (permission_denied "admin only")
  updated ← set_featured doc_id is_featured
  doc ← reads λ _. or_raise updated (not_found (document_text doc_id))
  pure (record { id = doc.id; is_featured = doc.is_featured; is_public = doc.is_public })
