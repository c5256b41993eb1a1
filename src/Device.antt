-- ===== src/Device.antt =====
-- service/device_flow.py: the codes and start
pub mod Poll
pub mod Authorize
pub mod Confirm
pub mod Exchange
pub mod Used
pub mod Once
pub mod Race
use Prim.Native.Char.{code}
use Prim.Native.String.{◌++◌ as ◌+++◌}
use markland.Prelude.{
  ℕ, zero, suc, ◌+◌, ◌*◌, String, Bool, Option, none, some, List, [], ◌∷◌, ◌++◌, ◌==◌, ◌&&◌, ◌||◌,
  not, is_some, is_empty, fetchone, codes, length, nat_eq, is_space, take_chars, drop_chars,
  rstrip_char, if◌then◌else◌, update_where,
}
use markland.Model.{DeviceAuthorization, DeviceStatus, Db, Fresh, second, whole_second}
use markland.Effects.{
  Action, Result, ok, err, ◌>>=◌, ◌>>◌, pure, reads, guard, or_raise, begin_implicit, write, commit,
  value_error, integrity_error, runtime_error,
}
use markland.External.{External}

abbrev pub user_code_length : ℕ
user_code_length = 8

abbrev pub device_code_ttl : ℕ
device_code_ttl = 600 * second

abbrev pub slow_down_window : ℕ
slow_down_window = 5 * second

abbrev pub max_failed_confirms : ℕ
max_failed_confirms = 5

unfoldable pub format_user_code : String → Result String
format_user_code raw =
    if nat_eq (length (codes raw)) user_code_length
    then ok (take_chars 4 raw +++ "-" +++ drop_chars 4 raw)
    else err (value_error "user_code must be 8 chars")

-- the characters that are neither hyphens nor spaces
unfoldable pub without_separators : String → String
without_separators String.[] = ""
without_separators (String.◌∷◌ c s) =
    let rest = without_separators s in
    if nat_eq (code c) b'-' || is_space (code c) then rest else String.◌∷◌ c rest

abbrev pub normalize_user_code : External → String → String
normalize_user_code x presented = without_separators (x.upper presented)

abbrev pub has_device_code : String → DeviceAuthorization → Bool
has_device_code device_code row = row.device_code == device_code

abbrev pub has_user_code : String → DeviceAuthorization → Bool
has_user_code user_code row = row.user_code == user_code

abbrev pub get_device : Db → String → Option DeviceAuthorization
get_device db device_code = fetchone (has_device_code device_code) db.device_authorizations

abbrev pub get_device_by_user_code : Db → String → Option DeviceAuthorization
get_device_by_user_code db user_code = fetchone (has_user_code user_code) db.device_authorizations

-- `UPDATE device_authorizations SET f WHERE device_code = ?`
abbrev pub set_device : String → (DeviceAuthorization → DeviceAuthorization) → Db → Db
set_device device_code f db = record db {
  device_authorizations = update_where (has_device_code device_code) f db.device_authorizations;
}

-- the loop over the attempts that are left, of ten
unfoldable pub unique_user_code : Db → (ℕ → String) → ℕ → Option String
unique_user_code db candidate zero = none
unique_user_code db candidate (suc left) =
    let later = unique_user_code db candidate left in
    if is_some (get_device_by_user_code db (candidate left)) then later else some (candidate left)

pub record DeviceStart : Type 0 where
  pub device_code : String
  pub user_code : String
  pub verification_url : String
  pub verification_uri_complete : String

-- PRIMARY KEY (device_code), UNIQUE (user_code)
abbrev pub may_insert_device : Db → String → String → Bool
may_insert_device db device_code user_code =
    not (is_some (get_device db device_code))
    && not (is_some (get_device_by_user_code db user_code))

abbrev pub new_device : Fresh → String → Option String → DeviceAuthorization
new_device fresh user_code invite_token = record {
  device_code = fresh.device_code;
  user_code = user_code;
  status = DeviceStatus.pending;
  user_id = none;
  invite_token = invite_token;
  created_at = whole_second fresh.now;
  expires_at = whole_second (fresh.now + device_code_ttl);
  polled_last = none;
  authorized_at = none;
  consumed_at = none;
  failed_confirms = 0;
}

abbrev pub device_url : String → String
device_url base_url =
    if is_empty base_url then "/device" else rstrip_char b'/' base_url +++ "/device"

-- `quote` leaves the letters, digits and the hyphen of a user code as they are.
unfoldable pub start : Fresh → Option String → String → Action DeviceStart
start fresh invite_token base_url = do
  user_code ← reads λ db. or_raise (unique_user_code db fresh.user_code 10) runtime_error
  begin_implicit
  reads λ db. guard (may_insert_device db fresh.device_code user_code) integrity_error
  write λ db. record db {
    device_authorizations =
        db.device_authorizations ++ new_device fresh user_code invite_token ∷ [];
  }
  commit
  formatted ← reads λ _. format_user_code user_code
  pure (record {
    device_code = fresh.device_code;
    user_code = formatted;
    verification_url = device_url base_url;
    verification_uri_complete = device_url base_url +++ "?code=" +++ formatted;
  })
