-- ===== src/Docs/Fork.antt =====
-- service/save.py: user_can_view, fork_document; service/docs.py: fork
pub mod Viewing
use Prim.Native.String.{◌++◌ as ◌+++◌}
use markland.Prelude.{
  ℕ, String, Bool, true, false, Option, none, some, ◌==◌, ◌||◌, not, holds, is_some, if◌then◌else◌,
}
use markland.Model.{Principal, PrincipalType, Document, Db, Fresh}
use markland.Effects.{
  Action, Result, ok, err, Error, ◌>>=◌, ◌>>◌, pure, raise, reads, gets, guard, or_raise, write,
  commit, not_found, permission_denied, permission_error, value_error, assertion_error,
}
use markland.Db.Documents.{get_document, insert_document, set_document}
use markland.Db.Grants.{get_grant}
use markland.Db.Revisions.{insert_revision}
use markland.Permissions.{document_text}
use markland.Docs.Content.{DocFull, doc_to_full, or_default, resolve_owner_id}

unfoldable pub user_can_view : Db → Document → String → Bool
user_can_view db doc user_id =
    doc.is_public || holds doc.owner_id user_id || is_some (get_grant db doc.id user_id)

-- The insertion of the first revision is not followed by a commit.
unfoldable pub fork_document : Fresh → Document → String → Action Document
unfolding user_can_view
fork_document fresh source new_owner_id = do
  reads λ _. guard (not (holds source.owner_id new_owner_id)) (value_error "cannot_fork_own_doc")
  reads λ db. guard (user_can_view db source new_owner_id) (permission_error "source_not_viewable")
  insert_document fresh fresh.doc_id source.title source.content fresh.share_token false
      (some new_owner_id) (some source.id)
  insert_revision fresh fresh.doc_id 1 source.title source.content (some new_owner_id)
      (some PrincipalType.user)
  reads λ db. or_raise (get_document db fresh.doc_id) assertion_error

-- `except PermissionError: raise NotFound(…)`
abbrev pub hide_permission_error : {A : Type 0} → String → Result A → Result A
hide_permission_error doc_id (err (permission_error message)) =
    err (not_found (document_text doc_id))
hide_permission_error doc_id r = r

unfoldable pub fork : Fresh → Principal → String → String → Option String → Action DocFull
unfolding fork_document
fork fresh principal source_doc_id base_url title = do
  owner_id ←
      reads
        λ _. or_raise (resolve_owner_id principal) (permission_denied "service_agent_cannot_fork")
  src ←
      reads λ db. or_raise (get_document db source_doc_id) (not_found (document_text source_doc_id))
  new_doc ← λ c.
      let (r, c') = fork_document fresh src owner_id c in
      (hide_permission_error source_doc_id r, c')
  let new_title = or_default title ("Fork of " +++ src.title)
  doc ← if new_title == new_doc.title then pure new_doc else do
    write (set_document new_doc.id λ d. record d { title = new_title })
    commit
    reads λ db. or_raise (get_document db new_doc.id) assertion_error
  pure (doc_to_full doc base_url)
