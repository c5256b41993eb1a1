-- ===== src/Web/Api/Masked.antt =====
-- What web/api_grants.py and web/presence_api.py disclose of a document to a caller who may not do what is asked.
use markland.Prelude.{
  ℕ, String, Bool, true, false, Option, none, some, ◌≡◌, refl, inl, inr, ◌&&◌, is_some,
}
use markland.Model.{Principal, Level}
use markland.Effects.{Conn}
use markland.Permissions.{Access, check_permission}
use markland.Permissions.Spec.{is_ok}
use markland.Permissions.Disclosure.{IsRefused, check-IsRefused}
use markland.Grants.Upsert.{level_of}
use markland.Presence.{activity_of}
use markland.Web.Etag.{parse_if_match}
use markland.Web.PresenceApi.{is_short}
use markland.Docs.Read.{get}
use markland.Docs.Update.{update}
use markland.Grants.Share.{grant}
use markland.Grants.Revoke.{revoke, list_grants}
use markland.Web.{Site, Request, returned, http_exception}
use markland.Web.ApiGrants.{
  api_get_doc, api_patch_doc, list_doc_grants, create_grant, delete_doc_grant,
}
use markland.Web.PresenceApi.{set_presence, list_presence}
use markland.Web.Api.{
  Endpoint, get_doc, patch_doc, get_grants, post_grant, remove_grant, post_presence, get_presence,
  handle, caller, needed, is_accepted,
}

is_some-some : {A : Type 0} (o : Option A) → is_some o ≡ true → (a : A) × (o ≡ some a)
is_some-some none h = absurd (cc h)
is_some-some (some a) h = (a, refl)

and_true : (a b : Bool) → (a && b) ≡ true → (a ≡ true) × (b ≡ true)
and_true true b h = (refl, h)
and_true false b h = absurd (cc h)

module _ (site : Site) (request : Request) (doc_id : String) (p : Principal) (c : Conn) where
  abbrev Denied : Access → Type 0
  Denied action = IsRefused (check_permission c.db p doc_id action)

  abbrev Asks : Endpoint → Type 0
  Asks endpoint = caller site request endpoint c ≡ (returned p, c)

  -- the answer to a document that is missing
  abbrev Masks : Endpoint → Type 0
  Masks endpoint = handle site request doc_id endpoint c ≡ (http_exception 404 "not_found", c)

  get-masked : Asks get_doc → Denied Access.view → Masks get_doc
  unfolding handle caller api_get_doc get
  get-masked asks (m, inl e) = rw (asks, e) refl
  get-masked asks (m, inr e) = rw (asks, e) refl

  patch-masked :
      (if_match content title : Option String) (version : ℕ)
      → Asks (patch_doc if_match content title)
      → parse_if_match if_match ≡ some version
      → Denied Access.edit
      → Masks (patch_doc if_match content title)
  unfolding handle caller api_patch_doc update
  patch-masked if_match content title version asks parsed (m, inl e) = rw (asks, parsed, e) refl
  patch-masked if_match content title version asks parsed (m, inr e) = rw (asks, parsed, e) refl

  get_grants-masked : Asks get_grants → Denied Access.edit → Masks get_grants
  unfolding handle caller list_doc_grants list_grants
  get_grants-masked asks (m, inl e) = rw (asks, e) refl
  get_grants-masked asks (m, inr e) = rw (asks, e) refl

  post_grant-masked :
      (target level : String) (parsed : Level)
      → Asks (post_grant target level)
      → level_of level ≡ some parsed
      → Denied Access.owner
      → Masks (post_grant target level)
  unfolding handle caller create_grant grant
  post_grant-masked target level parsed asks valid (m, inl e) = rw (asks, valid, e) refl
  post_grant-masked target level parsed asks valid (m, inr e) = rw (asks, valid, e) refl

  remove_grant-masked :
      (principal_id : String)
      → Asks (remove_grant principal_id)
      → Denied Access.owner
      → Masks (remove_grant principal_id)
  unfolding handle caller delete_doc_grant revoke
  remove_grant-masked principal_id asks (m, inl e) = rw (asks, e) refl
  remove_grant-masked principal_id asks (m, inr e) = rw (asks, e) refl

  post_presence-masked :
      (status : String) (remark : Option String)
      → Asks (post_presence status remark)
      → is_some (activity_of status) ≡ true
      → is_short remark ≡ true
      → Denied Access.view
      → Masks (post_presence status remark)
  unfolding handle caller set_presence get
  post_presence-masked status remark asks valid short (m, inl e) = rw (asks, valid, short, e) refl
  post_presence-masked status remark asks valid short (m, inr e) = rw (asks, valid, short, e) refl

  get_presence-masked : Asks get_presence → Denied Access.view → Masks get_presence
  unfolding handle caller list_presence get
  get_presence-masked asks (m, inl e) = rw (asks, e) refl
  get_presence-masked asks (m, inr e) = rw (asks, e) refl

  -- Whoever may not do to a document what an endpoint of api_grants.py or presence_api.py asks of it gets
  -- 404 not_found, and no table, transaction or mail is changed: whether the document is missing, hidden,
  -- or one that the caller can view, and whatever the caller's right to it. The condition is that the
  -- caller is known and that the rest of the request is accepted.
  pub handle-masked :
      (endpoint : Endpoint)
      → caller site request endpoint c ≡ (returned p, c)
      → is_accepted endpoint ≡ true
      → is_ok (check_permission c.db p doc_id (needed endpoint)) ≡ false
      → handle site request doc_id endpoint c ≡ (http_exception 404 "not_found", c)
  handle-masked get_doc asks valid h = get-masked asks (check-IsRefused c.db p doc_id Access.view h)
  handle-masked (patch_doc if_match content title) asks valid h =
      let (version, parsed) = is_some-some (parse_if_match if_match) valid in
      patch-masked if_match content title version asks parsed
        (check-IsRefused c.db p doc_id Access.edit h)
  handle-masked get_grants asks valid h =
      get_grants-masked asks (check-IsRefused c.db p doc_id Access.edit h)
  handle-masked (post_grant target level) asks valid h =
      let (parsed, e) = is_some-some (level_of level) valid in
      post_grant-masked target level parsed asks e (check-IsRefused c.db p doc_id Access.owner h)
  handle-masked (remove_grant principal_id) asks valid h =
      remove_grant-masked principal_id asks (check-IsRefused c.db p doc_id Access.owner h)
  handle-masked (post_presence status remark) asks valid h =
      let both = and_true (is_some (activity_of status)) (is_short remark) valid in
      post_presence-masked status remark asks both.0 both.1
        (check-IsRefused c.db p doc_id Access.view h)
  handle-masked get_presence asks valid h =
      get_presence-masked asks (check-IsRefused c.db p doc_id Access.view h)
