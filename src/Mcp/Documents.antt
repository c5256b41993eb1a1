-- ===== src/Mcp/Documents.antt =====
-- server.py: the tools that publish, read, fork, change and delete documents
use package.text.Mathlib.Text.{starts_with}
use markland.Prelude.{
  ℕ, String, Bool, Option, none, some, List, [], ◌∷◌, map, drop_chars, if◌then◌else◌,
}
use markland.Model.{Principal, Meta, text, number, Fresh, Document}
use markland.Effects.{
  Error, gets, reads, permission_error, value_error, content_too_large, conflict_error,
}
use markland.Paging.{Codec}
use markland.External.{External}
use markland.Permissions.{Access, check_permission}
use markland.Docs.Revisions.{RevisionItem, list_revisions_paginated}
use markland.Presence.{list_active}
use markland.Docs.Publish.{publish}
use markland.Docs.Read.{get, share_link, ShareLink, get_by_share_token}
use markland.Docs.Update.{update}
use markland.Docs.Delete.{delete, Deleted}
use markland.Docs.Fork.{fork}
use markland.Docs.Listing.{list_for_principal_paginated, search_paginated, list_public_paginated}
use markland.Mcp.{
  Code, Outcome, failed, uncaught, Tool, ◌>>=◌, ◌>>◌, pure, tool_error, catching, access_error,
  require_principal,
}
use markland.Mcp.Envelopes.{
  DocEnvelope, DocItem, ListEnvelope, doc_envelope, doc_summary, list_envelope, raw_of_full,
  raw_of_document,
}

abbrev pub reason_of : String → List (String × Meta)
reason_of reason = ("reason", text reason) ∷ []

-- `msg.split(": ", 1)[1]`, if `": "` is in it
unfoldable pub after_colon : String → Option String
after_colon String.[] = none
after_colon (String.◌∷◌ c s) =
    let rest = after_colon s in
    if starts_with (String.◌∷◌ c s) ": " then some (drop_chars 2 (String.◌∷◌ c s)) else rest

abbrev pub or_whole : Option String → String → String
or_whole none msg = msg
or_whole (some reason) msg = reason

abbrev pub publish_error : {A : Type 0} → Error → Outcome A
publish_error (content_too_large msg) = failed Code.invalid_argument (reason_of msg)
publish_error (permission_error msg) =
    failed Code.invalid_argument (reason_of (or_whole (after_colon msg) msg))
publish_error e = uncaught e

unfoldable pub publish_tool :
    Fresh → String → Option Principal → String → Option String → Bool → Tool DocEnvelope
publish_tool fresh base_url ctx content title public = do
  p ← require_principal ctx
  raw ← catching publish_error (publish fresh base_url p content title public)
  full ← catching uncaught (get p raw.id base_url)
  pure (doc_envelope (raw_of_full full) none)

abbrev pub document_page : List Document × Option String → ListEnvelope DocItem
document_page found = list_envelope (map doc_summary found.0) found.1

-- A malformed cursor raises a ValueError that the listings' tools do not catch.
unfoldable pub list_tool :
    Codec → Option Principal → ℕ → Option String → Tool (ListEnvelope DocItem)
list_tool codec ctx limit cursor = do
  p ← require_principal ctx
  found ← catching uncaught (reads λ db. list_for_principal_paginated codec db p limit cursor 200)
  pure (document_page found)

unfoldable pub get_tool : Fresh → String → Option Principal → String → Tool DocEnvelope
get_tool fresh base_url ctx doc_id = do
  p ← require_principal ctx
  body ← catching access_error (get p doc_id base_url)
  actives ← catching uncaught (gets λ db. list_active db doc_id fresh.now)
  pure (doc_envelope (raw_of_full body) (some actives))

unfoldable pub search_tool :
    Codec → Option Principal → String → ℕ → Option String → Tool (ListEnvelope DocItem)
search_tool codec ctx query limit cursor = do
  p ← require_principal ctx
  found ← catching uncaught (reads λ db. search_paginated codec db p query limit cursor 200)
  pure (document_page found)

unfoldable pub share_tool : String → Option Principal → String → Tool ShareLink
share_tool base_url ctx doc_id = do
  p ← require_principal ctx
  catching access_error (share_link base_url p doc_id)

-- Anyone may call it.
unfoldable pub get_by_share_token_tool : String → String → Tool DocEnvelope
get_by_share_token_tool base_url share_token = do
  raw ← catching uncaught (gets λ db. get_by_share_token db share_token)
  elim raw [
    | none ↦ tool_error Code.not_found []
    | some doc ↦ pure (doc_envelope (raw_of_document base_url share_token doc) none)
  ]

abbrev pub fork_error : {A : Type 0} → Error → Outcome A
fork_error (value_error msg) = failed Code.invalid_argument (reason_of msg)
fork_error (content_too_large msg) = failed Code.invalid_argument (reason_of msg)
fork_error e = access_error e

unfoldable pub fork_tool :
    Fresh → String → Option Principal → String → Option String → Tool DocEnvelope
fork_tool fresh base_url ctx doc_id title = do
  p ← require_principal ctx
  raw ← catching fork_error (fork fresh p doc_id base_url title)
  full ← catching uncaught (get p raw.id base_url)
  pure (doc_envelope (raw_of_full full) none)

unfoldable pub revisions_tool :
    External
    → Codec
    → Option Principal
    → String
    → ℕ
    → Option String
    → Tool (ListEnvelope RevisionItem)
revisions_tool x codec ctx doc_id limit cursor = do
  p ← require_principal ctx
  catching access_error (reads λ db. check_permission db p doc_id Access.view)
  found ← catching uncaught (reads λ db. list_revisions_paginated x codec db doc_id limit cursor)
  pure (list_envelope found.0 found.1)

-- Anyone may call it.
unfoldable pub explore_tool : Codec → ℕ → Option String → Tool (ListEnvelope DocItem)
explore_tool codec limit cursor = do
  found ← catching uncaught (reads λ db. list_public_paginated codec db limit cursor)
  pure (document_page found)

-- ContentTooLarge is a ValueError, and is caught first.
abbrev pub update_error : {A : Type 0} → Error → Outcome A
update_error (content_too_large msg) = failed Code.invalid_argument (reason_of msg)
update_error (value_error msg) = failed Code.not_found []
update_error (conflict_error version title content) = failed Code.conflict (
    ("current_version", number version)
    ∷ ("current_content", text content)
    ∷ ("current_title", text title)
    ∷ [])
update_error e = access_error e

unfoldable pub update_tool :
    Fresh
    → String
    → Option Principal
    → String
    → ℕ
    → Option String
    → Option String
    → Tool DocEnvelope
update_tool fresh base_url ctx doc_id if_version content title = do
  p ← require_principal ctx
  doc ← catching update_error (update fresh doc_id p content title if_version)
  full ← catching uncaught (get p doc.id base_url)
  pure (doc_envelope (raw_of_full full) none)

unfoldable pub delete_tool : Fresh → Option Principal → String → Tool Deleted
delete_tool fresh ctx doc_id = do
  p ← require_principal ctx
  catching access_error (delete fresh p doc_id)
