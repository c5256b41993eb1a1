-- ===== src/Docs/Content.antt =====
-- service/docs.py: limits on what is stored, the title taken from the text, and the results' shapes
use Prim.Native.String.{◌++◌ as ◌+++◌, len, count}
use text.Mathlib.Text.{starts_with}
use markland.Prelude.{
  ℕ, String, Bool, true, false, Option, none, some, List, [], ◌∷◌, ltb, strip, splitlines,
  drop_chars, is_empty, if◌then◌else◌,
}
use markland.Model.{Principal, PrincipalType, Document}
use markland.Effects.{Result, ok, err, content_too_large}

abbrev pub max_content_bytes : ℕ
max_content_bytes = 1_000_000

abbrev pub max_title_chars : ℕ
max_title_chars = 500

unfoldable pub content_fits : Option String → Bool
content_fits none = true
content_fits (some content) = if ltb max_content_bytes (len content) then false else true

unfoldable pub title_fits : Option String → Bool
title_fits none = true
title_fits (some title) = if ltb max_title_chars (count title) then false else true

unfoldable pub validate_content_and_title : Option String → Option String → Result (Unit {0})
validate_content_and_title content title =
    if content_fits content
    then if title_fits title then ok tt else err (content_too_large "title_too_long")
    else err (content_too_large "content_too_large")

-- the loop of `_extract_title`
title_of_lines : List String → String
title_of_lines [] = "Untitled"
title_of_lines (line ∷ lines) =
    let rest = title_of_lines lines in
    let stripped = strip line in
    if starts_with stripped "# " then strip (drop_chars 2 stripped) else rest

unfoldable pub extract_title : String → String
unfolding title_of_lines strip splitlines
extract_title content = title_of_lines (splitlines (strip content))

-- `title if title else default`
abbrev pub or_default : Option String → String → String
or_default none default = default
or_default (some title) default = if is_empty title then default else title

unfoldable pub resolve_owner_id : Principal → Option String
resolve_owner_id principal = elim principal.principal_type [
  | PrincipalType.user ↦ some principal.principal_id
  | PrincipalType.agent ↦ principal.user_id
]

-- `f"{base_url}/d/{doc.share_token}"`
abbrev pub share_url : String → String → String
share_url base_url share_token = base_url +++ "/d/" +++ share_token

pub record DocSummary : Type 0 where
  pub id : String
  pub title : String
  pub updated_at : ℕ
  pub is_public : Bool
  pub is_featured : Bool
  pub owner_id : Option String

unfoldable pub doc_to_summary : Document → DocSummary
doc_to_summary doc = record {
  id = doc.id;
  title = doc.title;
  updated_at = doc.updated_at;
  is_public = doc.is_public;
  is_featured = doc.is_featured;
  owner_id = doc.owner_id;
}

pub record DocFull : Type 0 where
  pub id : String
  pub title : String
  pub content : String
  pub share_url : String
  pub updated_at : ℕ
  pub is_public : Bool
  pub is_featured : Bool
  pub owner_id : Option String
  pub version : ℕ

unfoldable pub doc_to_full : Document → String → DocFull
doc_to_full doc base_url = record {
  id = doc.id;
  title = doc.title;
  content = doc.content;
  share_url = share_url base_url doc.share_token;
  updated_at = doc.updated_at;
  is_public = doc.is_public;
  is_featured = doc.is_featured;
  owner_id = doc.owner_id;
  version = doc.version;
}
