-- ===== src/Web/Invites.antt =====
-- web/invite_routes.py: making, revoking, looking at and accepting invites over HTTP. The mail to an invite's
-- creator goes through the dispatcher; sending without one is not modelled.
use Prim.Native.String.{◌++◌ as ◌+++◌}
use markland.Prelude.{
  String, Bool, true, false, Option, none, some, ◌==◌, holds, is_some, is_empty, fetchone, ℕ,
  if◌then◌else◌,
}
use markland.Model.{Invite, Document, User, Level, Db}
use markland.Effects.{Action, Error, ok, value_error, permission_error}
use markland.Db.Documents.{get_document}
use markland.Grants.Share.{enqueue}
use markland.Invites.Create.{create_invite, CreatedInvite, has_invite_id}
use markland.Invites.Resolve.{resolve_invite}
use markland.Invites.Accept.{accept_invite}
use markland.Invites.Revoke.{revoke_invite}
use markland.Tokens.Resolve.{get_user}
use markland.Web.{
  Site, Request, Handler, Reply, returned, http_exception, uncaught, ◌>>=◌, ◌>>◌, pure, catching,
  or_abort,
}
use markland.Web.Session.{session_or_abort, user_id_from_cookie, session_of}

-- _session_user_id
unfoldable pub session_user_id : Site → Request → Handler String
session_user_id site request = do
  payload ← λ c. (session_or_abort (session_of site request c.db), c)
  pure payload.user_id

abbrev pub id_of_user : Option User → Option String
id_of_user none = none
id_of_user (some u) = some u.id

abbrev pub existing_user : Db → Option String → Option String
existing_user db none = none
existing_user db (some user_id) = id_of_user (get_user db user_id)

-- _optional_user_id, of a router with a secret
unfoldable pub optional_user_id : Site → Request → Db → Option String
optional_user_id site request db = existing_user db (user_id_from_cookie site request db)

abbrev pub has_owner : Option Document → String → Bool
has_owner none user_id = false
has_owner (some doc) user_id = holds doc.owner_id user_id

-- `if not condition: raise HTTPException(404, "not_found")`
abbrev pub or_not_found : Bool → Handler (Unit {0})
or_not_found true c = (returned tt, c)
or_not_found false c = (http_exception 404 "not_found", c)

-- _require_owner: a missing document and another's answer alike
abbrev pub require_owner : String → String → Handler (Unit {0})
require_owner doc_id user_id c = or_not_found (has_owner (get_document c.db doc_id) user_id) c

abbrev pub invite_error : {A : Type 0} → Error → Reply A
invite_error (value_error m) = http_exception 400 m
invite_error e = uncaught e

-- of a level, and of days, that the body's model accepts
unfoldable pub http_create_invite :
    Site → Request → String → String → Bool → Option ℕ → Handler CreatedInvite
http_create_invite site request doc_id level single_use expires_in_days = do
  user_id ← session_user_id site request
  require_owner doc_id user_id
  catching invite_error (
      create_invite site.external site.fresh doc_id user_id level site.base_url single_use
        expires_in_days none "")

abbrev pub is_created_by : Option Invite → String → Bool
is_created_by none user_id = false
is_created_by (some inv) user_id = inv.created_by == user_id

abbrev pub hide_error : {A : Type 0} → Error → Reply A
hide_error (value_error m) = http_exception 404 "not_found"
hide_error (permission_error m) = http_exception 404 "not_found"
hide_error e = uncaught e

unfoldable pub http_delete_invite : Site → Request → String → Handler (Unit {0})
http_delete_invite site request invite_id = do
  user_id ← session_user_id site request
  λ c. or_not_found (is_created_by (fetchone (has_invite_id invite_id) c.db.invites) user_id) c
  catching hide_error (revoke_invite site.fresh invite_id user_id)

-- What the landing page shows of an invite; `none` is the page for one that is gone, with status 410.
pub record Landing : Type 0 where
  pub doc_title : String
  pub doc_share_token : String
  pub inviter_name : String
  pub level : Level
  pub signed_in : Bool

-- `display_name or email or "Someone"`
abbrev pub email_text : String → String
email_text email = if is_empty email then "Someone" else email

abbrev pub first_text : Option String → String → String
first_text none email = email_text email
first_text (some name) email = if is_empty name then email_text email else name

abbrev pub inviter_name : Option User → String
inviter_name none = "Someone"
inviter_name (some u) = first_text u.display_name u.email

abbrev pub landing_of : Site → Request → Db → Invite → Option Document → Option Landing
landing_of site request db inv none = none
landing_of site request db inv (some doc) = some (record {
  doc_title = doc.title;
  doc_share_token = doc.share_token;
  inviter_name = inviter_name (get_user db inv.created_by);
  level = inv.level;
  signed_in = is_some (optional_user_id site request db);
})

abbrev pub landing_found : Site → Request → Db → Option Invite → Option Landing
landing_found site request db none = none
landing_found site request db (some inv) =
    landing_of site request db inv (get_document db inv.doc_id)

unfoldable pub invite_landing : Site → Request → String → Db → Option Landing
invite_landing site request token db =
    landing_found site request db (resolve_invite site.external db site.fresh.now token)

-- _notify_creator, whose mail names the document's link
abbrev pub notify_found :
    Site → String → Option User → Option User → Option Document → Action (Unit {0})
notify_found site doc_id (some creator) (some accepter) (some doc) =
    enqueue site.email_client (record {
      to = creator.email;
      template = "invite_accepted";
      doc_id = doc_id;
      link = site.base_url +++ "/d/" +++ doc.share_token;
    })
notify_found site doc_id _ _ _ = λ c. (ok tt, c)

unfoldable pub notify_creator : Site → String → String → String → Action (Unit {0})
notify_creator site created_by accepter doc_id c =
    notify_found site doc_id (get_user c.db created_by) (get_user c.db accepter)
      (get_document c.db doc_id) c

-- The answer is the grant's document and level.
unfoldable pub http_accept_invite : Site → Request → String → Handler (String × Level)
http_accept_invite site request token = do
  user_id ← session_user_id site request
  inv ← λ c. or_abort 410 "gone" (resolve_invite site.external c.db site.fresh.now token) c
  accepted ← catching uncaught (accept_invite site.external site.fresh token user_id)
  grant ← or_abort 410 "gone" accepted
  catching uncaught (notify_creator site inv.created_by user_id inv.doc_id)
  pure (grant.doc_id, grant.level)
