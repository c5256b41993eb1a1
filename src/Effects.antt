-- ===== src/Effects.antt =====
-- Python code that reads and writes the database and may raise: a state and exception monad over a
-- connection. What was written before a raise stays written. The connection is Python's sqlite3 in
-- its default mode: the first write of a transaction opens it, and COMMIT or ROLLBACK closes it.
use markland.Prelude.{ℕ, String, Bool, true, false, Option, none, some, List, or_else}
use markland.Model.{Db}

-- The exceptions that the services raise; those with a message that a caller sees carry it.
pub data Error : Type 0 where
  not_found : String → Error
  permission_denied : String → Error
  -- Python's own PermissionError
  permission_error : String → Error
  value_error : String → Error
  content_too_large : String → Error
  conflict_error : ℕ → String → String → Error
  grant_target_not_found : String → Error
  agent_grants_not_supported : Error
  invalid_grant_level : Error
  -- sqlite3.IntegrityError, sqlite3.OperationalError, a failed assert
  integrity_error operational_error assertion_error : Error
  -- RuntimeError and its subclass PresenceError
  runtime_error presence_error : Error
  invalid_magic_link invalid_session : String → Error
  invalid_pending_intent invalid_agent_token_flash : String → Error
  lookup_error : String → Error

pub data Result (A : Type 0) : Type 0 where
  ok : A → Result A
  err : Error → Result A

-- A mail as it is handed to the dispatcher: recipient, template, link and level named in it
pub record Mail : Type 0 where
  pub to : String
  pub template : String
  pub doc_id : String
  pub link : String

-- `saved` holds the tables as they stood when the open transaction began.
pub record Conn : Type 0 where
  pub db : Db
  pub saved : Option Db
  pub outbox : List Mail

abbrev pub Action : Type 0 → Type 0
Action A = Conn → Result A × Conn

abbrev pub continue : {A B : Type 0} → Result A → (A → Action B) → Action B
continue (ok a) f c = f a c
continue (err e) f c = (err e, c)

infixl 10 ◌>>=◌ ◌>>◌
abbrev pub ◌>>=◌ : {A B : Type 0} → Action A → (A → Action B) → Action B
◌>>=◌ m f c = let (r, c') = m c in continue r f c'

abbrev pub ◌>>◌ : {A B : Type 0} → Action A → Action B → Action B
m >> n = m >>= λ _. n

abbrev pub pure : {A : Type 0} → A → Action A
pure a c = (ok a, c)

abbrev pub raise : {A : Type 0} → Error → Action A
raise e c = (err e, c)

-- a pure computation on the tables that may raise, such as a permission check
abbrev pub reads : {A : Type 0} → (Db → Result A) → Action A
reads f c = (f c.db, c)

-- a SELECT
abbrev pub gets : {A : Type 0} → (Db → A) → Action A
gets f c = (ok (f c.db), c)

abbrev pub guard : Bool → Error → Result (Unit {0})
guard true e = ok tt
guard false e = err e

abbrev pub or_raise : {A : Type 0} → Option A → Error → Result A
or_raise none e = err e
or_raise (some a) e = ok a

-- the BEGIN that Python issues before an INSERT, UPDATE or DELETE
abbrev pub begin_implicit : Action (Unit {0})
begin_implicit c = (ok tt, record c { saved = or_else c.saved (some c.db) })

-- an INSERT, UPDATE or DELETE
abbrev pub write : (Db → Db) → Action (Unit {0})
write f c = (ok tt, record c { db = f c.db; saved = or_else c.saved (some c.db) })

abbrev pub commit : Action (Unit {0})
commit c = (ok tt, record c { saved = none })

-- BEGIN IMMEDIATE is refused inside a transaction.
abbrev pub begin_immediate : Action (Unit {0})
begin_immediate c = elim c.saved [
  | none ↦ (ok tt, record c { saved = some c.db })
  | some d ↦ (err operational_error, c)
]

-- ROLLBACK, whose refusal outside a transaction is swallowed
abbrev pub rollback : Action (Unit {0})
rollback c = elim c.saved [
  | none ↦ (ok tt, c)
  | some d ↦ (ok tt, record c { db = d; saved = none })
]

-- `try: m except Exception: rollback; raise`
abbrev pub or_rollback : {A : Type 0} → Result A × Conn → Result A × Conn
or_rollback (ok a, c) = (ok a, c)
or_rollback (err e, c) = (err e, (rollback c).1)
