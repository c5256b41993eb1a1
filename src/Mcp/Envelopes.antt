-- ===== src/Mcp/Envelopes.antt =====
-- _mcp_envelopes.py: the shapes of what the tools return
use markland.Prelude.{ℕ, String, Bool, Option, none, some, List}
use markland.Model.{Document}
use markland.Presence.{ActivePrincipal}
use markland.Docs.Content.{DocFull, share_url}

-- A service's dict of a document; a key that is not there is none.
pub record RawDocument : Type 0 where
  pub id : String
  pub title : String
  pub content : String
  pub version : ℕ
  pub owner_id : Option String
  pub share_url : Option String
  pub is_public : Bool
  pub is_featured : Bool
  pub created_at : Option ℕ
  pub updated_at : ℕ

-- the keys of _doc_to_full
abbrev pub raw_of_full : DocFull → RawDocument
raw_of_full doc = record {
  id = doc.id;
  title = doc.title;
  content = doc.content;
  version = doc.version;
  owner_id = doc.owner_id;
  share_url = some doc.share_url;
  is_public = doc.is_public;
  is_featured = doc.is_featured;
  created_at = none;
  updated_at = doc.updated_at;
}

-- a row with `share_url` put in, as _get_by_share_token and the admin's branch of _doc_meta build it
abbrev pub raw_of_document : String → String → Document → RawDocument
raw_of_document base_url share_token doc = record {
  id = doc.id;
  title = doc.title;
  content = doc.content;
  version = doc.version;
  owner_id = doc.owner_id;
  share_url = some (share_url base_url share_token);
  is_public = doc.is_public;
  is_featured = doc.is_featured;
  created_at = some doc.created_at;
  updated_at = doc.updated_at;
}

pub record DocEnvelope : Type 0 where
  pub id : String
  pub title : String
  pub content : String
  pub version : ℕ
  pub owner_id : Option String
  pub share_url : Option String
  pub is_public : Bool
  pub is_featured : Bool
  pub created_at : Option ℕ
  pub updated_at : ℕ
  pub active_principals : Option (List ActivePrincipal)

unfoldable pub doc_envelope : RawDocument → Option (List ActivePrincipal) → DocEnvelope
doc_envelope raw active_principals = record {
  id = raw.id;
  title = raw.title;
  content = raw.content;
  version = raw.version;
  owner_id = raw.owner_id;
  share_url = raw.share_url;
  is_public = raw.is_public;
  is_featured = raw.is_featured;
  created_at = raw.created_at;
  updated_at = raw.updated_at;
  active_principals = active_principals;
}

pub record DocItem : Type 0 where
  pub id : String
  pub title : String
  pub owner_id : Option String
  pub is_public : Bool
  pub is_featured : Bool
  pub created_at : ℕ
  pub updated_at : ℕ
  pub version : ℕ

-- of the paginated listings, whose dicts have all columns
unfoldable pub doc_summary : Document → DocItem
doc_summary raw = record {
  id = raw.id;
  title = raw.title;
  owner_id = raw.owner_id;
  is_public = raw.is_public;
  is_featured = raw.is_featured;
  created_at = raw.created_at;
  updated_at = raw.updated_at;
  version = raw.version;
}

pub record ListEnvelope (A : Type 0) : Type 0 where
  pub items : List A
  pub next_cursor : Option String

abbrev pub list_envelope : {A : Type 0} → List A → Option String → ListEnvelope A
list_envelope items next_cursor = record { items = items; next_cursor = next_cursor }
