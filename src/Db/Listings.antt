-- ===== src/Db/Listings.antt =====
-- db.py: the listings and searches of documents, and update_document. SQL leaves the order of rows with
-- one updated_at open; here they keep the table's.
use Prim.Native.String.{◌++◌ as ◌+++◌}
use markland.Prelude.{
  ℕ, String, Bool, true, false, Option, none, some, List, ◌&&◌, ◌||◌, not, is_some, is_empty, holds,
  select, take, order_desc, strip, like, take_chars, if◌then◌else◌,
}
use markland.Model.{Document, Db, Fresh}
use markland.Effects.{Action}
use markland.Db.Documents.{set_and_read}
use markland.Db.Grants.{get_grant}

abbrev pub by_update : List Document → List Document
by_update = order_desc (λ d. d.updated_at)

-- `title LIKE ? OR content LIKE ?`
abbrev pub matches : String → Document → Bool
matches pattern d = like pattern d.title || like pattern d.content

-- `f"%{query}%"`
abbrev pub pattern_of : String → String
pattern_of query = "%" +++ query +++ "%"

-- a row of `JOIN grants g ON g.doc_id = d.id WHERE g.principal_id = ?`; the two are the grants' key
abbrev pub has_grant : Db → String → Document → Bool
has_grant db principal_id d = is_some (get_grant db d.id principal_id)

unfoldable pub list_documents : Db → List Document
list_documents db = by_update db.documents

unfoldable pub list_documents_for_owner : Db → String → List Document
list_documents_for_owner db owner_id =
    by_update (select (λ d. holds d.owner_id owner_id) db.documents)

-- UNION has a row once.
unfoldable pub list_documents_for_principal : Db → String → List Document
list_documents_for_principal db principal_id =
    by_update
      (select (λ d. holds d.owner_id principal_id || has_grant db principal_id d) db.documents)

unfoldable pub list_shared_with_principal : Db → String → List Document
list_shared_with_principal db principal_id =
    by_update (
      select (λ d. has_grant db principal_id d && not (holds d.owner_id principal_id)) db.documents)

unfoldable pub search_documents : Db → String → List Document
search_documents db query = by_update (select (matches (pattern_of query)) db.documents)

unfoldable pub search_documents_for_principal : Db → String → String → List Document
search_documents_for_principal db principal_id query = by_update (
    select
      (λ d.
        holds d.owner_id principal_id && matches (pattern_of query) d
        || has_grant db principal_id d && matches (pattern_of query) d)
      db.documents)

abbrev pub or_empty : Option String → String
or_empty none = ""
or_empty (some s) = s

abbrev pub list_public_matching : Db → String → ℕ → List Document
list_public_matching db q limit =
    if is_empty q
    then take limit (by_update (select (λ d. d.is_public) db.documents))
    else take limit (
        by_update
          (select (λ d. d.is_public && matches (pattern_of (take_chars 200 q)) d) db.documents))

-- for limits that are not negative
unfoldable pub list_public_documents : Db → Option String → ℕ → List Document
list_public_documents db query limit = list_public_matching db (strip (or_empty query)) limit

-- 1 and 0, as the flags are stored
abbrev pub bit : Bool → ℕ
bit true = 1
bit false = 0

-- ORDER BY is_featured DESC, updated_at DESC
unfoldable pub list_featured_and_recent_public : Db → ℕ → List Document
list_featured_and_recent_public db limit =
    take limit
      (order_desc (λ d. bit d.is_featured) (by_update (select (λ d. d.is_public) db.documents)))

abbrev pub or_old : Option String → String → String
or_old none old = old
or_old (some new) old = new

unfoldable pub update_document :
    Fresh → String → Option String → Option String → Action (Option Document)
update_document fresh doc_id title content = set_and_read doc_id (λ d. record d {
  title = or_old title d.title;
  content = or_old content d.content;
  updated_at = fresh.now;
})
