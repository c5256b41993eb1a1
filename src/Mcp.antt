-- ===== src/Mcp.antt =====
-- _mcp_errors.py and _require_principal of server.py: how a tool of the MCP server calls a service and
-- what it answers. What finds the principal in the request is not modelled: a tool takes the principal
-- that was found, or none.
pub mod Envelopes
pub mod Documents
pub mod DocMeta
pub mod Sharing
pub mod Identity
pub mod Requests
pub mod Hidden
use markland.Prelude.{String, Bool, true, false, Option, none, some, List, []}
use markland.Model.{Principal, Meta}
use markland.Effects.{Action, Error, Result, ok, err, Conn, permission_denied}

-- ERROR_CODES
pub data Code : Type 0 where
  unauthenticated forbidden not_found conflict invalid_argument rate_limited internal_error : Code

-- What a tool comes to: its result, a ToolError, or an exception that no tool catches, which the MCP
-- library answers.
pub data Outcome (A : Type 0) : Type 0 where
  done : A → Outcome A
  failed : Code → List (String × Meta) → Outcome A
  uncaught : Error → Outcome A

abbrev pub Tool : Type 0 → Type 0
Tool A = Conn → Outcome A × Conn

abbrev pub and_then : {A B : Type 0} → Outcome A → (A → Tool B) → Tool B
and_then (done a) f c = f a c
and_then (failed code more) f c = (failed code more, c)
and_then (uncaught e) f c = (uncaught e, c)

infixl 10 ◌>>=◌ ◌>>◌
abbrev pub ◌>>=◌ : {A B : Type 0} → Tool A → (A → Tool B) → Tool B
◌>>=◌ m f c = let (r, c') = m c in and_then r f c'

abbrev pub ◌>>◌ : {A B : Type 0} → Tool A → Tool B → Tool B
m >> n = m >>= λ _. n

abbrev pub pure : {A : Type 0} → A → Tool A
pure a c = (done a, c)

-- `raise tool_error(code, **data)`
abbrev pub tool_error : {A : Type 0} → Code → List (String × Meta) → Tool A
tool_error code more c = (failed code more, c)

abbrev pub answer : {A : Type 0} → (Error → Outcome A) → Result A → Outcome A
answer handler (ok a) = done a
answer handler (err e) = handler e

-- `try: m except …`
abbrev pub catching : {A : Type 0} → (Error → Outcome A) → Action A → Tool A
catching handler m c = let (r, c') = m c in (answer handler r, c')

-- `except NotFound: not_found; except PermissionDenied: forbidden`
abbrev pub access_error : {A : Type 0} → Error → Outcome A
access_error (Error.not_found m) = failed Code.not_found []
access_error (permission_denied m) = failed Code.forbidden []
access_error e = uncaught e

abbrev pub require_principal : Option Principal → Tool Principal
require_principal none c = (failed Code.unauthenticated [], c)
require_principal (some p) c = (done p, c)
