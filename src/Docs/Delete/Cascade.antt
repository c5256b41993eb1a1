-- ===== src/Docs/Delete/Cascade.antt =====
-- What a deletion leaves of a document.
use markland.Prelude.{
  String, true, none, [], ◌≡◌, arith, fetchone, delete_where, select-delete_where_same,
  fetchone-delete_where_same, ◌==◌,
}
use markland.Model.{Principal, Fresh, Db}
use markland.Effects.{Conn, ok}
use markland.Db.Documents.{get_document, delete_document}
use markland.Db.Documents.Laws.{get_document-forget_document}
use markland.Db.Grants.{get_grant, has_key}
use markland.Db.Revisions.{of_doc}
use markland.Db.Audit.{record_audit}
use markland.Permissions.{check_permission}
use markland.Docs.Delete.{Deleted, delete}
use markland.Docs.Update.History.{history}

ungranted :
    (db : Db) (doc_id p : String)
    → fetchone (has_key doc_id p) (delete_where (λ g. g.doc_id == doc_id) db.grants) ≡ none
ungranted db doc_id p =
    fetchone-delete_where_same (has_key doc_id p) (λ g. g.doc_id == doc_id) db.grants
      (λ g h. ground arith)

-- After a deletion that returns, the document, every grant on it and its revisions are gone.
pub delete-forgets :
    (fresh : Fresh) (principal : Principal) (doc_id : String) (c : Conn) (r : Deleted)
    → (delete fresh principal doc_id c).0 ≡ ok r
    → (r.deleted ≡ true)
      × (get_document (delete fresh principal doc_id c).1.db doc_id ≡ none)
      × ((p : String) → get_grant (delete fresh principal doc_id c).1.db doc_id p ≡ none)
      × (history (delete fresh principal doc_id c).1.db doc_id ≡ [])
unfolding delete delete_document record_audit check_permission
delete-forgets fresh principal doc_id c r h = (
  ground arith,
  ground (arith, get_document-forget_document c.db doc_id),
  λ p. ground (arith, ungranted c.db doc_id p),
  ground (arith, select-delete_where_same (of_doc doc_id) c.db.revisions),
)
