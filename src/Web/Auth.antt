-- ===== src/Web/Auth.antt =====
-- web/auth_routes.py: the login by magic link, and the logout. The request of a link and the pages are not
-- modelled.
pub mod Login
use markland.Prelude.{
  String, Bool, true, false, Option, none, some, ◌==◌, is_empty, if◌then◌else◌, ℕ, ◌*◌,
}
use markland.Model.{User}
use markland.Effects.{Error, Result, ok, err, invalid_magic_link, invalid_session}
use markland.MagicLink.{consume_magic_link_token, safe_return_to}
use markland.Users.{upsert_user_by_email}
use markland.Sessions.{
  Payload, issue_session, read_session, session_max_age_seconds, bump_session_epoch,
}
use markland.Web.{
  Site, Request, Handler, Reply, Redirect, redirect, returned, http_exception, uncaught, ◌>>=◌,
  ◌>>◌, pure, catching, abort, answer, seconds, Cookie, set_cookie, delete_cookie,
  session_cookie_name,
}

-- the default of the max_age that consume_magic_link_token takes, MAGIC_LINK_MAX_AGE_SECONDS
abbrev pub link_error : {A : Type 0} → Error → Reply A
link_error (invalid_magic_link m) = http_exception 400 "invalid or expired magic link"
link_error e = uncaught e

abbrev pub magic_link_max_age_seconds : ℕ
magic_link_max_age_seconds = 15 * 60

-- `if not session_secret: raise HTTPException(500, …)`
abbrev pub need_secret : Site → Handler (Unit {0})
need_secret site =
    if is_empty site.session_secret then abort 500 "session secret not configured" else pure tt

-- a session for a user
abbrev pub issue_for : Site → User → Handler (User × String)
issue_for site user = do
  cookie ← λ c. (
    answer uncaught (
        issue_session site.signing (seconds site) user.id site.session_secret
          session_max_age_seconds (some c.db)),
    c,
  )
  pure (user, cookie)

-- the user with an email, who is made at the first login
abbrev pub log_in_email : Site → String → Handler (User × String)
log_in_email site email = do
  user ← catching uncaught (upsert_user_by_email site.external site.user_id email none)
  issue_for site user

abbrev pub consume_link : Site → String → Handler String
consume_link site token = catching link_error (
    consume_magic_link_token site.links site.loaded_at (seconds site) magic_link_max_age_seconds
      site.session_secret token)

abbrev pub log_in : Site → String → Handler (User × String)
log_in site token = do need_secret site; email ← consume_link site token; log_in_email site email

-- `{"ok": True, "user_id": …}` and the session cookie
pub record Verified : Type 0 where
  pub user_id : String
  pub cookie : Cookie

abbrev pub session_cookie_of : String → Cookie
session_cookie_of cookie = set_cookie session_cookie_name cookie session_max_age_seconds

unfoldable pub verify : Site → String → Handler Verified
verify site token = do
  found ← log_in site token
  pure (record { user_id = (found.0).id; cookie = session_cookie_of found.1 })

-- /resume for a visitor with an intent, and /dashboard for "/"
abbrev pub landing : Request → String → String
landing request target =
    if is_empty request.intent_cookie
    then if target == "/" then "/dashboard" else target
    else "/resume"

abbrev pub or_empty : Option String → String
or_empty none = ""
or_empty (some s) = s

-- A link that is refused is answered with a page with status 400.
unfoldable pub verify_page : Site → Request → String → Option String → Handler Redirect
verify_page site request token return_to = do
  found ← log_in site token
  pure (record {
    url = landing request (safe_return_to (or_empty return_to));
    cookie = session_cookie_of found.1;
  })

abbrev pub swallow : Result ℕ → Reply (Unit {0})
swallow (ok epoch) = returned tt
swallow (err (invalid_session m)) = returned tt
swallow (err e) = uncaught e

-- `except InvalidSession: pass`
abbrev pub bump_valid : Result Payload → Handler (Unit {0})
bump_valid (err (invalid_session m)) = pure tt
bump_valid (err e) = λ c. (uncaught e, c)
bump_valid (ok payload) = λ c. let (r, c') = bump_session_epoch payload.user_id c in (swallow r, c')

abbrev pub bump_session : Site → Request → Handler (Unit {0})
bump_session site request =
    if is_empty request.session_cookie
    then pure tt
    else if is_empty site.session_secret
    then pure tt
    else λ c.
        bump_valid
          (read_session site.signing (seconds site) request.session_cookie site.session_secret
            session_max_age_seconds (some c.db))
          c

abbrev pub signed_out : Redirect
signed_out = record { url = "/"; cookie = delete_cookie session_cookie_name }

-- of a browser; a client that wants JSON gets `{"ok": True}` and the same cookie
unfoldable pub logout : Site → Request → Handler Redirect
logout site request = do bump_session site request; pure signed_out
