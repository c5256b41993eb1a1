-- ===== src/Db/Bookmarks.antt =====
-- db.py: the bookmarks table; toggle_bookmark of service/save.py
use markland.Prelude.{
  String, Bool, Option, none, some, List, [], ◌∷◌, ◌++◌, ◌==◌, ◌&&◌, ◌||◌, is_some, fetchone,
  select, delete_where, order_desc, if◌then◌else◌,
}
use markland.Model.{Document, Bookmark, Db, Fresh}
use markland.Effects.{
  Action, ◌>>=◌, ◌>>◌, pure, reads, gets, guard, begin_implicit, write, commit, integrity_error,
}
use markland.Db.Documents.{get_document}
use markland.Db.Grants.{get_grant}

-- PRIMARY KEY (user_id, doc_id)
abbrev pub is_bookmark : String → String → Bookmark → Bool
is_bookmark user_id doc_id b = b.user_id == user_id && b.doc_id == doc_id

abbrev pub get_bookmark : Db → String → String → Option Bookmark
get_bookmark db user_id doc_id = fetchone (is_bookmark user_id doc_id) db.bookmarks

-- The foreign key is checked where a row is inserted.
unfoldable pub upsert_bookmark : Fresh → String → String → Action (Unit {0})
upsert_bookmark fresh user_id doc_id = do
  begin_implicit
  found ← gets λ db. is_some (get_bookmark db user_id doc_id)
  reads λ db. guard (found || is_some (get_document db doc_id)) integrity_error
  if found
      then pure tt
      else write λ db. record db {
        bookmarks =
            db.bookmarks
            ++ record { user_id = user_id; doc_id = doc_id; created_at = fresh.now } ∷ [];
      }
  commit

unfoldable pub remove_bookmark : String → String → Action Bool
remove_bookmark user_id doc_id = do
  found ← gets λ db. is_some (get_bookmark db user_id doc_id)
  write λ db. record db { bookmarks = delete_where (is_bookmark user_id doc_id) db.bookmarks }
  commit
  pure found

-- `d.is_public = 1 OR EXISTS (SELECT 1 FROM grants …)`
abbrev pub is_shown : Db → String → Document → Bool
is_shown db user_id d = d.is_public || is_some (get_grant db d.id user_id)

-- the document of a bookmark, if it is shown
abbrev pub with_document : Db → String → Option Document → List Document → List Document
with_document db user_id none docs = docs
with_document db user_id (some d) docs = if is_shown db user_id d then d ∷ docs else docs

unfoldable pub join_documents : Db → String → List Bookmark → List Document
join_documents db user_id [] = []
join_documents db user_id (b ∷ bookmarks) =
    with_document db user_id (get_document db b.doc_id) (join_documents db user_id bookmarks)

unfoldable pub list_bookmarks_for_user : Db → String → List Document
list_bookmarks_for_user db user_id =
    join_documents db user_id
      (order_desc (λ b. b.created_at) (select (λ b. b.user_id == user_id) db.bookmarks))

unfoldable pub toggle_bookmark : Fresh → String → String → Bool → Action (Unit {0})
toggle_bookmark fresh user_id doc_id bookmarked =
    if bookmarked
    then upsert_bookmark fresh user_id doc_id
    else (do remove_bookmark user_id doc_id; pure tt)
