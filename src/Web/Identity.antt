-- ===== src/Web/Identity.antt =====
-- web/identity_routes.py: /api/me, the user's tokens, and the panels that a user dismisses. The length of a
-- label that pydantic checks and the page's template are not modelled.
use markland.Prelude.{String, Bool, true, false, none, some, List, ℕ, ◌∷◌, []}
use markland.Model.{User, Token, text}
use markland.Effects.{Result, ok, err, gets}
use markland.Sessions.{verify_csrf_token}
use markland.Tokens.Resolve.{list_tokens, revoke_token}
use markland.Tokens.{create_user_token}
use markland.Web.{
  Site, Request, Handler, Reply, returned, http_exception, json_error, uncaught, ◌>>=◌, pure,
  catching, seconds, Cookie, set_cookie, Redirect, redirect,
}
use markland.Web.Session.{agents_session_user}
use markland.Web.Agents.{session_user_or_none}

-- the user, and the tokens of which the answer leaves out the hashes
unfoldable pub me : Site → Request → Handler (User × List Token)
me site request = do
  user ← agents_session_user site request
  tokens ← catching uncaught (gets λ db. list_tokens db user.id)
  pure (user, tokens)

-- The answer has the label too, as it was sent.
unfoldable pub create_token : Site → Request → String → Handler (String × String)
create_token site request label = do
  user ← agents_session_user site request
  catching uncaught (create_user_token site.external site.fresh user.id label)

abbrev pub or_token_not_found : Bool → Handler (Unit {0})
or_token_not_found true c = (returned tt, c)
or_token_not_found false c = (http_exception 404 "token not found", c)

-- The eviction from the cache that follows a revocation is in Tokens.Cache.
unfoldable pub delete_token : Site → Request → String → Handler (Unit {0})
delete_token site request token_id = do
  user ← agents_session_user site request
  revoked ← catching uncaught (revoke_token site.fresh token_id user.id)
  or_token_not_found revoked

abbrev pub one_year : ℕ
one_year = 31_536_000

-- a cookie for a year, for a request with the user's CSRF token in its header
abbrev pub dismiss_if : String → Result Bool → Reply Cookie
dismiss_if key (ok true) = returned (set_cookie key "1" one_year)
dismiss_if key (ok false) = json_error 403 (("error", text "csrf") ∷ [])
dismiss_if key (err e) = uncaught e

abbrev pub dismiss : Site → Request → String → String → Handler Cookie
dismiss site request csrf key = do
  user ← agents_session_user site request
  λ c. (
    dismiss_if key (verify_csrf_token site.signing (seconds site) csrf user.id site.session_secret),
    c,
  )

unfoldable pub api_dismiss_connect_claude_code : Site → Request → String → Handler Cookie
api_dismiss_connect_claude_code site request csrf = dismiss site request csrf "mk_dismiss_connect"

unfoldable pub api_dismiss_welcome : Site → Request → String → Handler Cookie
api_dismiss_welcome site request csrf = dismiss site request csrf "mk_dismiss_welcome"

-- the page of a user, or the way to the login
pub data TokensPage : Type 0 where
  tokens_page : User → List Token → TokensPage
  moved : Redirect → TokensPage

unfoldable pub settings_tokens : Site → Request → Handler TokensPage
settings_tokens site request = do
  found ← session_user_or_none site request
  elim found [
    | none ↦ pure (moved (redirect "/login"))
    | some user ↦ λ c. pure (tokens_page user (list_tokens c.db user.id)) c
  ]
