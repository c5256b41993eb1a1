-- ===== src/Docs/Delete.antt =====
-- service/docs.py: delete
pub mod Cascade
use markland.Prelude.{String, Bool, true, false, Option, none, some, List, [], if◌then◌else◌}
use markland.Model.{Principal, Fresh}
use markland.Effects.{Action, ok, ◌>>=◌, ◌>>◌, pure, reads}
use markland.Db.Documents.{delete_document}
use markland.Db.Audit.{record_audit}
use markland.Permissions.{Access, check_permission}

pub record Deleted : Type 0 where
  pub deleted : Bool
  pub id : String

unfoldable pub delete : Fresh → Principal → String → Action Deleted
delete fresh principal doc_id = do
  reads λ db. check_permission db principal doc_id Access.owner
  deleted ← delete_document doc_id
  if deleted then record_audit fresh "delete" principal (some doc_id) [] else pure tt
  pure (record { deleted = deleted; id = doc_id })
