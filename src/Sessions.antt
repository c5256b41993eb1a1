-- ===== src/Sessions.antt =====
-- service/sessions.py: the session cookie, its revocation by epochs, and the CSRF token, over
-- itsdangerous as a parameter. A cookie's expiry is the signer's max_age; the request is not modelled.
pub mod Revocation
use mathlib.Core.Option
use markland.Prelude.{
  ℕ, ◌+◌, ◌*◌, String, Bool, true, false, Option, none, some, ◌==◌, not, is_empty, fetchone,
  update_where, ltb, if◌then◌else◌,
}
use markland.Model.{User, Db}
use markland.Effects.{
  Action, Result, ok, err, ◌>>=◌, ◌>>◌, pure, reads, guard, or_raise, write, commit, value_error,
  invalid_session,
}

-- SESSION_MAX_AGE_SECONDS
abbrev pub session_max_age_seconds : ℕ
session_max_age_seconds = 60 * 60 * 24 * 30

-- A cookie's payload; those issued before epochs have none. The times are seconds.
pub record Payload : Type 0 where
  pub user_id : String
  pub exp : ℕ
  pub epoch : Option ℕ

-- What Serializer.loads comes to: BadSignature, no dict with a user_id, or a payload.
pub data Loaded : Type 0 where
  bad_signature malformed : Loaded
  payload : Payload → Loaded

-- The serializer and the timestamp signers with the salts of sessions and of CSRF tokens. `unsign` is
-- none for its two exceptions, BadSignature and SignatureExpired.
pub record Signing : Type 0 where
  pub dumps : (secret : String) → Payload → String
  pub loads : (secret : String) → String → Loaded
  pub sign : (secret : String) → (now : ℕ) → String → String
  pub unsign : (secret : String) → (now max_age : ℕ) → String → Option String
  pub csrf_sign : (secret : String) → (now : ℕ) → String → String
  pub csrf_unsign : (secret : String) → (now max_age : ℕ) → String → Option String

abbrev pub has_user_id : String → User → Bool
has_user_id user_id u = u.id == user_id

abbrev pub epoch_of : User → ℕ
epoch_of u = u.session_epoch

unfoldable pub read_user_epoch : Db → String → Option ℕ
read_user_epoch db user_id = Option.map epoch_of (fetchone (has_user_id user_id) db.users)

abbrev pub bumped : User → User
bumped u = record u { session_epoch = u.session_epoch + 1 }

-- UPDATE … RETURNING. For a missing user the transaction that the UPDATE opened stays open.
unfoldable pub bump_session_epoch : String → Action ℕ
bump_session_epoch user_id = do
  write λ db. record db { users = update_where (has_user_id user_id) bumped db.users }
  epoch ← reads λ db. or_raise (read_user_epoch db user_id) (invalid_session "user not found")
  commit
  pure epoch

abbrev pub or_zero : Option ℕ → ℕ
or_zero none = 0
or_zero (some n) = n

-- 0 without a connection, or for a user that is not there
abbrev pub epoch_at_issue : Option Db → String → ℕ
epoch_at_issue none user_id = 0
epoch_at_issue (some db) user_id = or_zero (read_user_epoch db user_id)

-- `current is None` and `cookie_epoch < current`
abbrev pub check_current : Payload → Option ℕ → Result Payload
check_current p none = err (invalid_session "user not found")
check_current p (some current) =
    if ltb (or_zero p.epoch) current then err (invalid_session "session revoked") else ok p

abbrev pub check_epoch : Option Db → Payload → Result Payload
check_epoch none p = ok p
check_epoch (some db) p = check_current p (read_user_epoch db p.user_id)

abbrev pub check_loaded : Option Db → Loaded → Result Payload
check_loaded conn bad_signature = err (invalid_session "bad payload")
check_loaded conn malformed = err (invalid_session "malformed payload")
check_loaded conn (payload p) = check_epoch conn p

-- one message for the signer's two exceptions
abbrev pub load_unsigned : Signing → String → Option Db → Option String → Result Payload
load_unsigned s secret conn none = err (invalid_session "bad signature")
load_unsigned s secret conn (some raw) = check_loaded conn (s.loads secret raw)

module _ (s : Signing) where
  unfoldable pub issue_session : ℕ → String → String → ℕ → Option Db → Result String
  issue_session now user_id secret max_age_seconds conn =
      if is_empty secret
      then err (value_error "session secret must be non-empty")
      else ok (
          s.sign secret now (
            s.dumps secret (record {
              user_id = user_id;
              exp = now + max_age_seconds;
              epoch = some (epoch_at_issue conn user_id);
            })))

  unfoldable pub read_session : ℕ → String → String → ℕ → Option Db → Result Payload
  read_session now token secret max_age_seconds conn =
      if is_empty token
      then err (invalid_session "empty session token")
      else if is_empty secret
      then err (value_error "session secret must be non-empty")
      else load_unsigned s secret conn (s.unsign secret now max_age_seconds token)

  -- `except InvalidSession: return None`; the secret is not empty, so that no other is raised
  abbrev pub session_user : Result Payload → Option String
  session_user (err e) = none
  session_user (ok p) = some p.user_id

  -- of the cookie, where the request has one; a SessionInfo without its name, which is always None
  unfoldable pub get_session : ℕ → String → String → Option Db → Option String
  get_session now cookie secret conn =
      if is_empty cookie
      then none
      else if is_empty secret
      then none
      else session_user (read_session now cookie secret session_max_age_seconds conn)

  -- _CSRF_MAX_AGE_SECONDS
  abbrev pub csrf_max_age_seconds : ℕ
  csrf_max_age_seconds = 60 * 60

  unfoldable pub make_csrf_token : ℕ → String → String → Result String
  make_csrf_token now user_id secret =
      if is_empty secret
      then err (value_error "session secret must be non-empty")
      else ok (s.csrf_sign secret now user_id)

  abbrev pub is_signed_for : String → Option String → Bool
  is_signed_for user_id none = false
  is_signed_for user_id (some unsigned) = unsigned == user_id

  unfoldable pub verify_csrf_token : ℕ → String → String → String → Result Bool
  verify_csrf_token now token user_id secret =
      if is_empty token
      then ok false
      else if is_empty user_id
      then ok false
      else if is_empty secret
      then err (value_error "session secret must be non-empty")
      else ok (is_signed_for user_id (s.csrf_unsign secret now csrf_max_age_seconds token))
