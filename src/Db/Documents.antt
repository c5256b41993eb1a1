-- ===== src/Db/Documents.antt =====
-- db.py: the documents table, and what a deletion cascades to
pub mod Laws
use markland.Prelude.{
  ℕ, String, Bool, true, false, Option, none, some, List, [], ◌∷◌, ◌++◌, ◌==◌, ◌||◌, ◌&&◌, not,
  is_some, holds, fetchone, update_where, delete_where, if◌then◌else◌,
}
use markland.Model.{Document, Revision, Bookmark, Grant, Db, Fresh}
use markland.Effects.{
  Action, ◌>>=◌, ◌>>◌, pure, reads, gets, guard, or_raise, begin_implicit, write, commit,
  integrity_error, assertion_error,
}

abbrev pub has_id : String → Document → Bool
has_id doc_id d = d.id == doc_id

abbrev pub has_token : String → Document → Bool
has_token token d = d.share_token == token

abbrev pub get_document : Db → String → Option Document
get_document db doc_id = fetchone (has_id doc_id) db.documents

abbrev pub get_document_by_token : Db → String → Option Document
get_document_by_token db token = fetchone (has_token token) db.documents

-- what the foreign key of `forked_from_doc_id` asks
abbrev pub refers_to_document : Db → Option String → Bool
refers_to_document db none = true
refers_to_document db (some doc_id) = is_some (get_document db doc_id)

-- PRIMARY KEY (id), UNIQUE (share_token) and the foreign key
abbrev pub may_insert_document : Db → String → String → Option String → Bool
may_insert_document db doc_id share_token forked_from_doc_id =
    not (is_some (get_document db doc_id))
    && not (is_some (get_document_by_token db share_token))
    && refers_to_document db forked_from_doc_id

abbrev pub new_document :
    Fresh → String → String → String → String → Bool → Option String → Option String → Document
new_document fresh doc_id title content share_token is_public owner_id forked_from_doc_id = record {
  id = doc_id;
  title = title;
  content = content;
  share_token = share_token;
  created_at = fresh.now;
  updated_at = fresh.now;
  is_public = is_public;
  is_featured = false;
  owner_id = owner_id;
  version = 1;
  forked_from_doc_id = forked_from_doc_id;
}

unfoldable pub insert_document :
    Fresh → String → String → String → String → Bool → Option String → Option String → Action String
insert_document fresh doc_id title content share_token is_public owner_id forked_from_doc_id = do
  begin_implicit
  reads λ db. guard (may_insert_document db doc_id share_token forked_from_doc_id) integrity_error
  write λ db. record db {
    documents =
        db.documents
        ++ new_document fresh doc_id title content share_token is_public owner_id forked_from_doc_id
          ∷ [];
  }
  commit
  pure doc_id

-- `UPDATE documents SET f WHERE id = ?`
abbrev pub set_document : String → (Document → Document) → Db → Db
set_document doc_id f db = record db { documents = update_where (has_id doc_id) f db.documents }

-- ON DELETE CASCADE and ON DELETE SET NULL of the tables that refer to documents
abbrev pub forget_document : String → Db → Db
forget_document doc_id db = record db {
  documents =
      update_where (λ d. holds d.forked_from_doc_id doc_id)
        (λ d. record d { forked_from_doc_id = none }) (delete_where (has_id doc_id) db.documents);
  revisions = delete_where (λ r. r.doc_id == doc_id) db.revisions;
  bookmarks = delete_where (λ b. b.doc_id == doc_id) db.bookmarks;
  presence = delete_where (λ p. p.doc_id == doc_id) db.presence;
}

unfoldable pub delete_document : String → Action Bool
delete_document doc_id = do
  write λ db. record db { grants = delete_where (λ g. g.doc_id == doc_id) db.grants }
  found ← gets λ db. is_some (get_document db doc_id)
  write (forget_document doc_id)
  commit
  pure found

-- The tail of each setter below: nothing for a missing document, else the row as it now stands.
abbrev pub set_and_read : String → (Document → Document) → Action (Option Document)
set_and_read doc_id f = do
  doc ← gets λ db. get_document db doc_id
  elim doc [
    | none ↦ pure none
    | some d ↦ do write (set_document doc_id f); commit; gets λ db. get_document db doc_id
  ]

unfoldable pub set_visibility : Fresh → String → Bool → Action (Option Document)
set_visibility fresh doc_id is_public =
    set_and_read doc_id (λ d. record d { is_public = is_public; updated_at = fresh.now })

unfoldable pub set_featured : String → Bool → Action (Option Document)
set_featured doc_id is_featured = set_and_read doc_id (λ d. record d { is_featured = is_featured })

-- UNIQUE (share_token): the new token may be no other document's.
abbrev pub may_rotate : Db → String → String → Bool
may_rotate db doc_id token = elim (get_document_by_token db token) [
  | none ↦ true
  | some d ↦ d.id == doc_id
]

unfoldable pub rotate_share_token : Fresh → String → Action (Option Document)
rotate_share_token fresh doc_id = do
  doc ← gets λ db. get_document db doc_id
  elim doc [
    | none ↦ pure none
    | some d ↦ do
      begin_implicit
      reads λ db. guard (may_rotate db doc_id fresh.share_token) integrity_error
      write (set_document doc_id λ d. record d { share_token = fresh.share_token })
      commit
      gets λ db. get_document db doc_id
  ]
