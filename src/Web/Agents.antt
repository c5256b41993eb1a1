-- ===== src/Web/Agents.antt =====
-- web/routes_agents.py: /api/agents and the forms of /settings/agents. The lengths that pydantic checks are
-- not modelled, nor is the page's template.
use markland.Prelude.{
  String, Bool, false, Option, none, some, List, ◌==◌, ◌&&◌, not, is_some, is_empty, fetchone,
  update_where, if◌then◌else◌,
}
use markland.Model.{Agent, PrincipalType, Token, User, Fresh, Db}
use markland.Effects.{
  Conn, Error, Result, ok, err, lookup_error, permission_error, value_error, invalid_session,
  invalid_agent_token_flash, gets,
}
use markland.Agents.{
  get_agent, is_owned_by, list_agents, create_agent, revoke_agent, create_agent_token,
}
use markland.Tokens.Cache.{Cache, evict_principal}
use markland.Tokens.Resolve.{get_user, same_type}
use markland.Sessions.{Payload, read_session, session_max_age_seconds}
use markland.Intents.{
  issue_agent_token_flash, read_agent_token_flash, agent_token_flash_max_age_seconds,
}
use markland.Web.{
  Site, Request, Handler, Reply, Redirect, redirect, returned, http_exception, json_error, uncaught,
  ◌>>=◌, pure, catching, seconds, set_cookie, delete_cookie, Cookie, agent_token_flash_cookie_name,
}
use markland.Web.Session.{agents_session_user}

-- The answers' dicts leave out revoked_at, which is None.
unfoldable pub list_agents_endpoint : Site → Request → Handler (List Agent)
list_agents_endpoint site request = do
  user ← agents_session_user site request
  catching uncaught (gets λ db. list_agents db user.id)

abbrev pub create_error : {A : Type 0} → Error → Reply A
create_error (value_error m) = http_exception 400 m
create_error e = uncaught e

unfoldable pub create_agent_endpoint : Site → Request → String → Handler Agent
create_agent_endpoint site request display_name = do
  user ← agents_session_user site request
  catching create_error (create_agent site.fresh user.id display_name)

abbrev pub owner_error : {A : Type 0} → Error → Reply A
owner_error (lookup_error m) = http_exception 404 "not_found"
owner_error (permission_error m) = http_exception 403 "forbidden"
owner_error e = uncaught e

unfoldable pub revoke_agent_endpoint : Site → Request → String → Handler (Unit {0})
revoke_agent_endpoint site request agent_id = do
  user ← agents_session_user site request
  catching owner_error (revoke_agent site.fresh agent_id user.id)

abbrev pub token_error : {A : Type 0} → Error → Reply A
token_error (value_error m) = http_exception 400 m
token_error e = owner_error e

-- The answer has the label too, as it was sent.
unfoldable pub create_agent_token_endpoint :
    Site → Request → String → String → Handler (String × String)
create_agent_token_endpoint site request agent_id label = do
  user ← agents_session_user site request
  catching token_error (create_agent_token site.external site.fresh agent_id user.id label)

-- the WHERE clause over tokens t JOIN agents a ON a.id = t.principal_id
abbrev pub owns_agent : Option Agent → String → Bool
owns_agent none user_id = false
owns_agent (some a) user_id = is_owned_by user_id a

abbrev pub is_agent_token : Db → String → String → String → Token → Bool
is_agent_token db token_id user_id agent_id t =
    t.id == token_id
    && same_type t.principal_type PrincipalType.agent
    && t.principal_id == agent_id
    && owns_agent (get_agent db agent_id) user_id

abbrev pub is_live_token : String → Token → Bool
is_live_token token_id t = t.id == token_id && not (is_some t.revoked_at)

abbrev pub with_revoked : Fresh → String → Db → Db
with_revoked fresh token_id db = record db {
  tokens =
      update_where (is_live_token token_id) (λ t. record t { revoked_at = some fresh.now })
        db.tokens;
}

-- UPDATE and COMMIT, and the eviction from the cache
abbrev pub revoke_found :
    Fresh → String → String → Option Token → Cache → Conn → (Reply (Unit {0}) × Cache) × Conn
revoke_found fresh agent_id token_id none cache c = ((http_exception 404 "not_found", cache), c)
revoke_found fresh agent_id token_id (some t) cache c = (
  (returned tt, evict_principal agent_id cache),
  record c { db = with_revoked fresh token_id c.db; saved = none },
)

abbrev pub revoke_for :
    Site → String → String → Reply User → Cache → Conn → (Reply (Unit {0}) × Cache) × Conn
revoke_for site agent_id token_id (returned user) cache c =
    revoke_found site.fresh agent_id token_id
      (fetchone (is_agent_token c.db token_id user.id agent_id) c.db.tokens) cache c
revoke_for site agent_id token_id (http_exception status detail) cache c =
    ((http_exception status detail, cache), c)
revoke_for site agent_id token_id (json_error status body) cache c =
    ((json_error status body, cache), c)
revoke_for site agent_id token_id (uncaught e) cache c = ((uncaught e, cache), c)

unfoldable pub revoke_agent_token_endpoint :
    Site → Request → String → String → Cache → Conn → (Reply (Unit {0}) × Cache) × Conn
revoke_agent_token_endpoint site request agent_id token_id cache c =
    let (user, c') = agents_session_user site request c in
    revoke_for site agent_id token_id user cache c'

-- _session_user_or_none
abbrev pub user_or_none : Conn → Result Payload → Reply (Option User)
user_or_none c (ok payload) = returned (get_user c.db payload.user_id)
user_or_none c (err (invalid_session m)) = returned none
user_or_none c (err e) = uncaught e

unfoldable pub session_user_or_none : Site → Request → Handler (Option User)
session_user_or_none site request c = (
  user_or_none c (
      read_session site.signing (seconds site) request.session_cookie site.session_secret
        session_max_age_seconds (some c.db)),
  c,
)

-- what the page shows, and what becomes of the flash cookie
pub record AgentsPage : Type 0 where
  pub agents : List Agent
  pub new_token : Option String
  pub email : String
  pub cookie : Cookie

-- `except InvalidAgentTokenFlash: new_token = None`
abbrev pub flash_or_none : Result String → Reply (Option String)
flash_or_none (ok plaintext) = returned (some plaintext)
flash_or_none (err (invalid_agent_token_flash m)) = returned none
flash_or_none (err e) = uncaught e

abbrev pub new_token_of : Site → String → Reply (Option String)
new_token_of site sealed =
    if is_empty sealed
    then returned none
    else flash_or_none (
        read_agent_token_flash site.flashes (seconds site) sealed site.session_secret
          agent_token_flash_max_age_seconds)

abbrev pub flash_cookie_after : String → Cookie
flash_cookie_after sealed =
    if is_empty sealed then Cookie.kept else delete_cookie agent_token_flash_cookie_name

-- a page, or a redirect
pub data Page : Type 0 where
  agents_page : AgentsPage → Page
  moved : Redirect → Page

unfoldable pub settings_agents : Site → Request → Handler Page
settings_agents site request = do
  found ← session_user_or_none site request
  elim found [
    | none ↦ pure (moved (redirect "/login"))
    | some user ↦ do
      agents ← catching uncaught (gets λ db. list_agents db user.id)
      new_token ← λ c. (new_token_of site request.flash_cookie, c)
      pure (
          agents_page (record {
            agents = agents;
            new_token = new_token;
            email = user.email;
            cookie = flash_cookie_after request.flash_cookie;
          }))
  ]

-- `except …: pass`, and the redirect that follows
abbrev pub back : Redirect
back = redirect "/settings/agents"

abbrev pub pass_value_error : {A : Type 0} → Result A → Reply Redirect
pass_value_error (ok a) = returned back
pass_value_error (err (value_error m)) = returned back
pass_value_error (err e) = uncaught e

unfoldable pub settings_agents_create : Site → Request → String → Handler Redirect
settings_agents_create site request display_name = do
  found ← session_user_or_none site request
  elim found [
    | none ↦ pure (redirect "/login")
    | some user ↦ λ c.
        let (r, c') = create_agent site.fresh user.id display_name c in (pass_value_error r, c')
  ]

abbrev pub pass_owner_error : {A : Type 0} → Result A → Reply Redirect
pass_owner_error (ok a) = returned back
pass_owner_error (err (lookup_error m)) = returned back
pass_owner_error (err (permission_error m)) = returned back
pass_owner_error (err e) = uncaught e

unfoldable pub settings_agents_delete : Site → Request → String → Handler Redirect
settings_agents_delete site request agent_id = do
  found ← session_user_or_none site request
  elim found [
    | none ↦ pure (redirect "/login")
    | some user ↦
        λ c. let (r, c') = revoke_agent site.fresh agent_id user.id c in (pass_owner_error r, c')
  ]

abbrev pub flashed : Result String → Reply Redirect
flashed (err e) = uncaught e
flashed (ok sealed) = returned (record back {
  cookie = set_cookie agent_token_flash_cookie_name sealed agent_token_flash_max_age_seconds;
})

-- the plaintext is sealed into the flash cookie
abbrev pub flash_token : Site → Result (String × String) → Reply Redirect
flash_token site (ok token) =
    flashed (issue_agent_token_flash site.flashes (seconds site) site.session_secret token.1)
flash_token site (err (value_error m)) = returned back
flash_token site (err e) = pass_owner_error {A = String} (err e)

unfoldable pub settings_agents_token_create : Site → Request → String → String → Handler Redirect
settings_agents_token_create site request agent_id label = do
  found ← session_user_or_none site request
  elim found [
    | none ↦ pure (redirect "/login")
    | some user ↦ λ c.
        let (r, c') = create_agent_token site.external site.fresh agent_id user.id label c in
        (flash_token site r, c')
  ]
