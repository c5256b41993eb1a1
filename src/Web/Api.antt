-- ===== src/Web/Api.antt =====
-- web/api_grants.py and web/presence_api.py: their endpoints under /api/docs/{doc_id}, which ask check_permission.
-- POST /api/docs/{doc_id}/invites has its own test of the owner, in Web.Invites.
pub mod Masked
use markland.Prelude.{ℕ, String, Bool, true, Option, none, some, List, ◌&&◌, is_some}
use markland.Model.{Principal, Grant}
use markland.Permissions.{Access}
use markland.Docs.Content.{DocFull}
use markland.Grants.Revoke.{Revoked}
use markland.Grants.Upsert.{level_of}
use markland.Presence.{activity_of, PresenceSet, ActivePrincipal}
use markland.Web.{Site, Request, Handler, ◌>>=◌, pure}
use markland.Web.Session.{principal, require_principal}
use markland.Web.Etag.{parse_if_match}
use markland.Web.ApiGrants.{
  Tagged, Patched, api_get_doc, api_patch_doc, list_doc_grants, create_grant, delete_doc_grant,
}
use markland.Web.PresenceApi.{set_presence, list_presence, is_short}

-- An endpoint of the two files, and what it reads but for `doc_id`.
pub data Endpoint : Type 0 where
  get_doc : Endpoint
  patch_doc : (if_match content title : Option String) → Endpoint
  get_grants : Endpoint
  post_grant : (target level : String) → Endpoint
  remove_grant : (principal_id : String) → Endpoint
  post_presence : (status : String) → (remark : Option String) → Endpoint
  get_presence : Endpoint

pub data Answer : Type 0 where
  document : Tagged DocFull → Answer
  changed : Tagged Patched → Answer
  grants : List Grant → Answer
  granted : Grant → Answer
  withdrawn : Revoked → Answer
  presence : PresenceSet → Answer
  actives : List ActivePrincipal → Answer

module _ (site : Site) (request : Request) (doc_id : String) where
  unfoldable pub handle : Endpoint → Handler Answer
  handle get_doc = do r ← api_get_doc site request doc_id; pure (document r)
  handle (patch_doc if_match content title) = do
    r ← api_patch_doc site request doc_id if_match content title
    pure (changed r)
  handle get_grants = do r ← list_doc_grants site request doc_id; pure (grants r)
  handle (post_grant target level) = do
    r ← create_grant site request doc_id target level
    pure (granted r)
  handle (remove_grant principal_id) = do
    r ← delete_doc_grant site request doc_id principal_id
    pure (withdrawn r)
  handle (post_presence status remark) = do
    r ← set_presence site request doc_id status remark
    pure (presence r)
  handle get_presence = do r ← list_presence site request doc_id; pure (actives r)

-- who asks
unfoldable pub caller : Site → Request → Endpoint → Handler Principal
caller site request get_doc = principal site request
caller site request (patch_doc if_match content title) = principal site request
caller site request get_grants = principal site request
caller site request (post_grant target level) = principal site request
caller site request (remove_grant principal_id) = principal site request
caller site request (post_presence status remark) = require_principal site request
caller site request get_presence = require_principal site request

-- the action on the document that an endpoint wants permission for
abbrev pub needed : Endpoint → Access
needed get_doc = Access.view
needed (patch_doc if_match content title) = Access.edit
needed get_grants = Access.edit
needed (post_grant target level) = Access.owner
needed (remove_grant principal_id) = Access.owner
needed (post_presence status remark) = Access.view
needed get_presence = Access.view

-- What is read is accepted, so that the endpoint comes to ask for permission.
abbrev pub is_accepted : Endpoint → Bool
is_accepted (patch_doc if_match content title) = is_some (parse_if_match if_match)
is_accepted (post_grant target level) = is_some (level_of level)
is_accepted (post_presence status remark) = is_some (activity_of status) && is_short remark
is_accepted _ = true
