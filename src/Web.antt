-- ===== src/Web.antt =====
-- web/: what the routes answer, and what they read of a request. What FastAPI does with an answer, the
-- templates and the parsing of bodies are not modelled: a handler takes the values that it reads.
pub mod Inversion
pub mod Etag
pub mod Session
pub mod ApiGrants
pub mod PresenceApi
pub mod Save
pub mod Middleware
pub mod Agents
pub mod Auth
pub mod Invites
pub mod Identity
pub mod Device
pub mod Api
use markland.Prelude.{ℕ, ◌/◌, String, Option, List, Bool, true, false, none, some}
use markland.Model.{Principal, Meta, Fresh, second}
use markland.Effects.{Action, Error, Result, ok, err, Conn, not_found, permission_denied}
use markland.External.{External}
use markland.Grants.Share.{Dispatcher}
use markland.Sessions.{Signing}
use markland.Intents
use markland.Intents.{RawIntent}
use markland.MagicLink

-- What a handler comes to: what it returns, an HTTPException with its status and detail, a JSONResponse
-- for an error, or an exception that it does not catch, which is answered with status 500.
pub data Reply (A : Type 0) : Type 0 where
  returned : A → Reply A
  http_exception : ℕ → String → Reply A
  json_error : ℕ → List (String × Meta) → Reply A
  uncaught : Error → Reply A

abbrev pub Handler : Type 0 → Type 0
Handler A = Conn → Reply A × Conn

abbrev pub and_then : {A B : Type 0} → Reply A → (A → Handler B) → Handler B
and_then (returned a) f c = f a c
and_then (http_exception status detail) f c = (http_exception status detail, c)
and_then (json_error status body) f c = (json_error status body, c)
and_then (uncaught e) f c = (uncaught e, c)

infixl 10 ◌>>=◌ ◌>>◌
abbrev pub ◌>>=◌ : {A B : Type 0} → Handler A → (A → Handler B) → Handler B
◌>>=◌ m f c = let (r, c') = m c in and_then r f c'

abbrev pub ◌>>◌ : {A B : Type 0} → Handler A → Handler B → Handler B
m >> n = m >>= λ _. n

abbrev pub pure : {A : Type 0} → A → Handler A
pure a c = (returned a, c)

-- `raise HTTPException(status, detail)`
abbrev pub abort : {A : Type 0} → ℕ → String → Handler A
abort status detail c = (http_exception status detail, c)

abbrev pub answer : {A : Type 0} → (Error → Reply A) → Result A → Reply A
answer handler (ok a) = returned a
answer handler (err e) = handler e

-- `try: m except …`
abbrev pub catching : {A : Type 0} → (Error → Reply A) → Action A → Handler A
catching handler m c = let (r, c') = m c in (answer handler r, c')

-- `if o is None: raise HTTPException(status, detail)`
abbrev pub or_abort : {A : Type 0} → ℕ → String → Option A → Handler A
or_abort status detail none c = (http_exception status detail, c)
or_abort status detail (some a) c = (returned a, c)

-- the first of two answers that is there
abbrev pub or_first : {A : Type 0} → Option A → Option A → Option A
or_first none o = o
or_first (some a) o = some a

-- `except NotFound` and `except PermissionDenied`, which answer alike
abbrev pub mask : {A : Type 0} → Error → Reply A
mask (not_found m) = http_exception 404 "not_found"
mask (permission_denied m) = http_exception 404 "not_found"
mask e = uncaught e

-- What the routers close over, and what a call draws from the clock and from `secrets`; `user_id` is what
-- _generate_user_id returns, and `loaded_at` the second at which itsdangerous looks at a magic link.
pub record Site : Type 0 where
  pub external : External
  pub signing : Signing
  pub intents : Intents.Serializer RawIntent
  pub flashes : Intents.Serializer (Option String)
  pub links : MagicLink.Serializer
  pub session_secret : String
  pub base_url : String
  pub email_client : Dispatcher
  pub fresh : Fresh
  pub user_id : String
  pub loaded_at : ℕ

-- the clock in whole seconds, as itsdangerous reads it
abbrev pub seconds : Site → ℕ
seconds site = site.fresh.now / second

-- request.state.principal and the cookies that a request carries, "" for one that it does not
pub record Request : Type 0 where
  pub principal : Option Principal
  pub session_cookie : String
  pub intent_cookie : String
  pub flash_cookie : String

-- What a response does to one cookie of the browser's.
pub data Cookie : Type 0 where
  kept : Cookie
  set_cookie : (key value : String) → (max_age : ℕ) → Cookie
  delete_cookie : (key : String) → Cookie

-- A RedirectResponse with status 303
pub record Redirect : Type 0 where
  pub url : String
  pub cookie : Cookie

abbrev pub redirect : String → Redirect
redirect url = record { url = url; cookie = kept }

-- SESSION_COOKIE_NAME, PENDING_INTENT_COOKIE_NAME, AGENT_TOKEN_FLASH_COOKIE_NAME
abbrev pub session_cookie_name : String
session_cookie_name = "mk_session"

abbrev pub pending_intent_cookie_name : String
pending_intent_cookie_name = "markland_pending_intent"

abbrev pub agent_token_flash_cookie_name : String
agent_token_flash_cookie_name = "markland_agent_token_flash"
