-- ===== src/Web/Session.antt =====
-- web/session_principal.py, and how the routers find out who asks: request.state.principal, which only a
-- Bearer token sets, and the mk_session cookie
use mathlib.Core.Option
use markland.Prelude.{String, Option, none, some, is_empty, if◌then◌else◌}
use markland.Model.{Principal, PrincipalType, User, Db}
use markland.Effects.{Result, ok, err, invalid_session}
use markland.Sessions.{Payload, read_session, get_session, session_max_age_seconds}
use markland.Tokens.Resolve.{get_user}
use markland.Web.{
  Site, Request, Handler, Reply, returned, http_exception, uncaught, seconds, ◌>>=◌, or_abort,
  or_first,
}

abbrev pub user_of_session : Db → Option String → Option User
user_of_session db none = none
user_of_session db (some user_id) = get_user db user_id

unfoldable pub session_user : Site → Request → Db → Option User
session_user site request db =
    user_of_session db
      (get_session site.signing (seconds site) request.session_cookie site.session_secret (some db))

abbrev pub principal_of_session_user : User → Principal
principal_of_session_user user = record {
  principal_id = user.id;
  principal_type = PrincipalType.user;
  display_name = user.display_name;
  is_admin = user.is_admin;
  user_id = none;
}

unfoldable pub session_principal : Site → Request → Db → Option Principal
session_principal site request db =
    Option.map principal_of_session_user (session_user site request db)

-- `{"email": …}`, of which the email is kept
unfoldable pub signed_in_user_ctx : Site → Request → Db → Option String
signed_in_user_ctx site request db =
    Option.map (λ (u : User). u.email) (session_user site request db)

-- _principal of api_grants.py
unfoldable pub principal : Site → Request → Handler Principal
principal site request c =
    let from_cookie = session_principal site request c.db in
    or_abort 401 "unauthenticated"
      (or_first request.principal (if is_empty site.session_secret then none else from_cookie)) c

-- `except InvalidSession: return None`; the guards before leave no other exception
abbrev pub user_id_of_payload : Result Payload → Option String
user_id_of_payload (ok payload) = some payload.user_id
user_id_of_payload (err e) = none

-- `read_session(cookie, secret=session_secret, conn=conn)`
abbrev pub session_of : Site → Request → Db → Result Payload
session_of site request db =
    read_session site.signing (seconds site) request.session_cookie site.session_secret
      session_max_age_seconds (some db)

-- the session's user id, where there are a cookie and a secret
abbrev pub user_id_from_cookie : Site → Request → Db → Option String
user_id_from_cookie site request db =
    let session = session_of site request db in
    if is_empty request.session_cookie
    then none
    else if is_empty site.session_secret
    then none
    else user_id_of_payload session

-- _principal_from_session and _require_principal of presence_api.py: here the principal of a session has
-- its own user_id.
abbrev pub principal_with_user_id : User → Principal
principal_with_user_id user = record (principal_of_session_user user) { user_id = some user.id }

unfoldable pub principal_from_session : Site → Request → Db → Option Principal
principal_from_session site request db =
    Option.map principal_with_user_id (user_of_session db (user_id_from_cookie site request db))

unfoldable pub require_principal : Site → Request → Handler Principal
require_principal site request c =
    or_abort 401 "unauthenticated"
      (or_first request.principal (principal_from_session site request c.db)) c

abbrev pub user_only : PrincipalType → String → Option String
user_only PrincipalType.user id = some id
user_only PrincipalType.agent id = none

abbrev pub user_id_of_principal : Option Principal → Option String
user_id_of_principal none = none
user_id_of_principal (some p) = user_only p.principal_type p.principal_id

-- _current_user_id of save_routes.py
unfoldable pub current_user_id : Site → Request → Db → Option String
current_user_id site request db =
    or_first (user_id_of_principal request.principal) (user_id_from_cookie site request db)

-- _session_user of routes_agents.py, which does not ask whether there is a secret
abbrev pub session_or_abort : Result Payload → Reply Payload
session_or_abort (ok payload) = returned payload
session_or_abort (err (invalid_session m)) = http_exception 401 "unauthenticated"
session_or_abort (err e) = uncaught e

unfoldable pub agents_session_user : Site → Request → Handler User
agents_session_user site request = do
  payload ← λ c. (session_or_abort (session_of site request c.db), c)
  λ c. or_abort 401 "unauthenticated" (get_user c.db payload.user_id) c

-- `except InvalidSession: return None`, and every other exception is raised
abbrev pub or_invalid : Result Payload → Reply (Option String)
or_invalid (ok payload) = returned (some payload.user_id)
or_invalid (err (invalid_session m)) = returned none
or_invalid (err e) = uncaught e
