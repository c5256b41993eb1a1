-- ===== src/Docs/Revisions.antt =====
-- service/docs.py: list_revisions_paginated. Its ids are integers, and a cursor's are texts.
use markland.Prelude.{
  ℕ, ◌+◌, String, Bool, true, Option, none, some, List, ◌&&◌, ◌||◌, select, order_desc, take, map,
  ltb, nat_eq,
}
use mathlib.Core.Option
use markland.Model.{Revision, Db}
use markland.Effects.{Result, ok, err}
use markland.External.{External}
use markland.Db.Revisions.{of_doc}
use markland.Paging.{Cursor, Codec, page_of, clamp_limit, read_cursor, Columns}
use markland.Web.Etag.{decimal_before}

-- `str` of an integer
abbrev pub decimal : ℕ → String
decimal n = decimal_before (n + 1) n ""

-- one of the dicts of the listing
pub record RevisionItem : Type 0 where
  pub revision_id : String
  pub version : ℕ
  pub title : String
  pub content : String
  pub created_at : ℕ

abbrev pub item_of : Revision → RevisionItem
item_of r = record {
  revision_id = decimal r.id;
  version = r.version;
  title = r.title;
  content = r.content;
  created_at = r.created_at;
}

abbrev pub revision_columns : Columns Revision
revision_columns = record { sort_key = λ r. r.created_at; id = λ r. decimal r.id }

-- an integer column stands before a text that is no number
abbrev pub id_lt : ℕ → Option ℕ → Bool
id_lt id none = true
id_lt id (some last_id) = ltb id last_id

-- `(created_at, id) < (?, ?)`, if there is a cursor
abbrev pub is_after : External → Option Cursor → Revision → Bool
is_after x none r = true
is_after x (some cur) r =
    ltb r.created_at cur.sort_key
    || nat_eq r.created_at cur.sort_key && id_lt r.id (x.integer_of cur.last_id)

-- ORDER BY created_at DESC, id DESC
abbrev pub newest_first : List Revision → List Revision
newest_first rows = order_desc (λ r. r.created_at) (order_desc (λ r. r.id) rows)

abbrev pub revision_page : Codec → ℕ → List Revision → List RevisionItem × Option String
revision_page codec limit found =
    let page = page_of revision_columns limit found in
    (map item_of page.0, Option.map codec.encode page.1)

abbrev pub revisions_at :
    External
    → Codec
    → Db
    → String
    → ℕ
    → Result (Option Cursor)
    → Result (List RevisionItem × Option String)
revisions_at x codec db doc_id limit (err e) = err e
revisions_at x codec db doc_id limit (ok cur) = ok (
    revision_page codec limit (
      take (limit + 1)
        (newest_first (select (λ r. of_doc doc_id r && is_after x cur r) db.revisions))))

unfoldable pub list_revisions_paginated :
    External → Codec → Db → String → ℕ → Option String → Result (List RevisionItem × Option String)
list_revisions_paginated x codec db doc_id limit cursor =
    revisions_at x codec db doc_id (clamp_limit 200 limit)
      (read_cursor revision_columns codec cursor)
