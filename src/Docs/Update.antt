-- ===== src/Docs/Update.antt =====
-- service/docs.py: update, with optimistic concurrency control
pub mod Outcome
pub mod Concurrency
pub mod History
use markland.Prelude.{
  ℕ, ◌+◌, String, Bool, true, false, Option, none, some, List, [], ◌∷◌, nat_eq, if◌then◌else◌,
}
use markland.Model.{Principal, Document, Meta, number, Fresh}
use markland.Effects.{
  Action, Result, ok, err, ◌>>=◌, ◌>>◌, pure, raise, reads, gets, guard, or_raise, write, commit,
  begin_immediate, rollback, or_rollback, value_error, conflict_error, assertion_error,
}
use markland.Db.Documents.{get_document, set_document}
use markland.Db.Revisions.{insert_revision, prune_revisions}
use markland.Db.Audit.{record_audit}
use markland.Permissions.{Access, check_permission}
use markland.Docs.Content.{validate_content_and_title}

abbrev pub max_revisions_per_doc : ℕ
max_revisions_per_doc = 50

-- `new if new is not None else old`
abbrev pub or_keep : Option String → String → String
or_keep none old = old
or_keep (some new) old = new

abbrev pub edited : Fresh → Option String → Option String → Document → Document
edited fresh content title doc = record doc {
  title = or_keep title doc.title;
  content = or_keep content doc.content;
  updated_at = fresh.now;
  version = doc.version + 1;
}

-- the writes of a transaction whose version check has passed
unfoldable pub write_update :
    Fresh → Principal → Option String → Option String → Document → Action Document
write_update fresh principal content title doc = do
  insert_revision fresh doc.id doc.version doc.title doc.content (some principal.principal_id)
      (some principal.principal_type)
  let new = edited fresh content title doc
  write (
      set_document doc.id λ d. record d {
        title = new.title;
        content = new.content;
        updated_at = new.updated_at;
        version = new.version;
      })
  prune_revisions doc.id max_revisions_per_doc
  commit
  pure doc

-- the body of the `try`
unfoldable pub try_update :
    Fresh → String → Principal → Option String → Option String → ℕ → Action Document
try_update fresh doc_id principal content title if_version = do
  row ← gets λ db. get_document db doc_id
  elim row [
    | none ↦ do rollback; raise (value_error "Document not found")
    | some doc ↦
        if nat_eq doc.version if_version
        then write_update fresh principal content title doc
        else do rollback; raise (conflict_error doc.version doc.title doc.content)
  ]

unfoldable pub update :
    Fresh → String → Principal → Option String → Option String → ℕ → Action Document
update fresh doc_id principal content title if_version = do
  reads λ db. check_permission db principal doc_id Access.edit
  reads λ _. validate_content_and_title content title
  begin_immediate
  doc ← λ c. or_rollback (try_update fresh doc_id principal content title if_version c)
  refreshed ← reads λ db. or_raise (get_document db doc.id) assertion_error
  record_audit fresh "update" principal (some doc_id)
      (("new_version", number refreshed.version) ∷ [])
  pure refreshed
