-- ===== src/Docs/Listing.antt =====
-- service/docs.py: the listings of documents, with cursors and without; the listings
-- of grants.py, invites.py and agents.py stand beside their services. A listed dict has the row's
-- columns, so it is the row.
pub mod Viewable
use Prim.Native.String.{◌++◌ as ◌+++◌}
use markland.Prelude.{
  ℕ, String, Bool, true, Option, List, ◌==◌, ◌&&◌, ◌||◌, holds, is_some, fetchone, like, map,
}
use markland.Model.{Principal, Document, Db}
use markland.Effects.{Result}
use markland.Db.Grants.{get_grant}
use markland.Docs.Content.{DocSummary, doc_to_summary}
use markland.Db.Listings.{
  list_documents_for_principal, list_shared_with_principal, search_documents_for_principal,
}
use markland.Paging.{Codec, Columns, paginate}

-- ORDER BY updated_at DESC, id DESC
abbrev pub document_columns : Columns Document
document_columns = record { sort_key = λ d. d.updated_at; id = λ d. d.id }

-- `d.id IN (SELECT doc_id FROM grants WHERE principal_id = ?)`
abbrev pub is_granted : Db → String → Document → Bool
is_granted db principal_id d = is_some (get_grant db d.id principal_id)

abbrev pub is_owned_or_granted : Db → Principal → Document → Bool
is_owned_or_granted db principal d =
    holds d.owner_id principal.principal_id || is_granted db principal.principal_id d

-- `title LIKE ? OR content LIKE ?`, with `%query%`
abbrev pub is_match : String → Document → Bool
is_match query d =
    let pattern = "%" +++ query +++ "%" in like pattern d.title || like pattern d.content

unfoldable pub list_for_principal_paginated :
    Codec → Db → Principal → ℕ → Option String → ℕ → Result (List Document × Option String)
list_for_principal_paginated codec db principal limit cursor cap =
    paginate document_columns codec cap limit (is_owned_or_granted db principal) cursor db.documents

-- The UNION of the rows that the caller owns and of those granted has a row once.
unfoldable pub search_paginated :
    Codec → Db → Principal → String → ℕ → Option String → ℕ → Result (List Document × Option String)
search_paginated codec db principal query limit cursor cap =
    paginate document_columns codec cap limit
      (λ d.
        holds d.owner_id principal.principal_id && is_match query d
        || is_granted db principal.principal_id d && is_match query d)
      cursor db.documents

unfoldable pub list_public_paginated :
    Codec → Db → ℕ → Option String → Result (List Document × Option String)
list_public_paginated codec db limit cursor =
    paginate document_columns codec 200 limit (λ d. d.is_public) cursor db.documents

unfoldable pub list_for_principal : Db → Principal → List DocSummary
list_for_principal db principal =
    map doc_to_summary (list_documents_for_principal db principal.principal_id)

unfoldable pub list_shared_with : Db → Principal → List DocSummary
list_shared_with db principal =
    map doc_to_summary (list_shared_with_principal db principal.principal_id)

unfoldable pub search : Db → Principal → String → List DocSummary
search db principal query =
    map doc_to_summary (search_documents_for_principal db principal.principal_id query)
