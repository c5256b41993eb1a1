-- ===== src/Web/ApiGrants.antt =====
-- web/api_grants.py: /api/docs, the documents and their grants over HTTP
use markland.Prelude.{ℕ, String, Bool, Option, none, some, List, [], ◌∷◌}
use markland.Model.{Grant, Meta, text, number, Document}
use markland.Effects.{
  Error, content_too_large, conflict_error, value_error, grant_target_not_found,
  agent_grants_not_supported, invalid_grant_level,
}
use markland.Docs.Publish.{publish, Published}
use markland.Docs.Content.{DocFull}
use markland.Docs.Read.{get}
use markland.Docs.Update.{update}
use markland.Grants.Share.{grant}
use markland.Grants.Revoke.{revoke, Revoked, list_grants}
use markland.Web.{
  Site, Request, Handler, Reply, http_exception, json_error, uncaught, ◌>>=◌, pure, catching, mask,
}
use markland.Web.Session.{principal}
use markland.Web.Etag.{etag, parse_if_match}

-- a JSONResponse with an ETag header
pub record Tagged (A : Type 0) : Type 0 where
  pub body : A
  pub etag : String

-- `{"error": "invalid_argument", "reason": …}`
abbrev pub invalid_argument : String → List (String × Meta)
invalid_argument reason = ("error", text "invalid_argument") ∷ ("reason", text reason) ∷ []

abbrev pub publish_error : {A : Type 0} → Error → Reply A
publish_error (content_too_large m) = json_error 400 (invalid_argument m)
publish_error e = uncaught e

-- of a body whose `content` and `title` are texts, or missing
unfoldable pub publish_doc : Site → Request → String → Option String → Bool → Handler Published
publish_doc site request content title public = do
  p ← principal site request
  catching publish_error (publish site.fresh site.base_url p content title public)

unfoldable pub api_get_doc : Site → Request → String → Handler (Tagged DocFull)
api_get_doc site request doc_id = do
  p ← principal site request
  body ← catching mask (get p doc_id site.base_url)
  pure (record { body = body; etag = etag body.version })

-- ContentTooLarge is a ValueError, and is caught first.
abbrev pub patch_error : {A : Type 0} → Error → Reply A
patch_error (content_too_large m) = json_error 400 (invalid_argument m)
patch_error (value_error m) = http_exception 404 "not_found"
patch_error (conflict_error version title content) = json_error 409 (
    ("error", text "conflict")
    ∷ ("current_version", number version)
    ∷ ("current_content", text content)
    ∷ ("current_title", text title)
    ∷ [])
patch_error e = mask e

pub record Patched : Type 0 where
  pub id : String
  pub title : String
  pub content : String
  pub updated_at : ℕ
  pub version : ℕ

abbrev pub patched : Document → Tagged Patched
patched doc = record {
  body = record {
    id = doc.id;
    title = doc.title;
    content = doc.content;
    updated_at = doc.updated_at;
    version = doc.version;
  };
  etag = etag doc.version;
}

-- `if parsed is None: return JSONResponse(…, status_code=428)`
abbrev pub or_precondition : Option ℕ → Handler ℕ
or_precondition none c = (json_error 428 (("error", text "precondition_required") ∷ []), c)
or_precondition (some version) c = (Reply.returned version, c)

-- of a body whose `content` and `title` are texts, null or missing
unfoldable pub api_patch_doc :
    Site
    → Request
    → String
    → Option String
    → Option String
    → Option String
    → Handler (Tagged Patched)
api_patch_doc site request doc_id if_match content title = do
  p ← principal site request
  parsed ← or_precondition (parse_if_match if_match)
  doc ← catching patch_error (update site.fresh doc_id p content title parsed)
  pure (patched doc)

unfoldable pub list_doc_grants : Site → Request → String → Handler (List Grant)
list_doc_grants site request doc_id = do
  p ← principal site request
  catching mask (list_grants p doc_id)

abbrev pub grant_error : {A : Type 0} → Error → Reply A
grant_error (grant_target_not_found m) = json_error 400 (invalid_argument "GrantTargetNotFound")
grant_error agent_grants_not_supported = json_error 400 (invalid_argument "AgentGrantsNotSupported")
grant_error invalid_grant_level = json_error 400 (invalid_argument "InvalidGrantLevel")
grant_error e = mask e

unfoldable pub create_grant : Site → Request → String → String → String → Handler Grant
create_grant site request doc_id target level = do
  p ← principal site request
  catching grant_error
      (grant site.external site.fresh site.base_url p doc_id target level site.email_client)

unfoldable pub delete_doc_grant : Site → Request → String → String → Handler Revoked
delete_doc_grant site request doc_id principal_id = do
  p ← principal site request
  catching mask (revoke site.fresh p doc_id principal_id)
