-- ===== src/Device/Authorize.antt =====
-- service/device_flow.py: authorize and has_authorized_device
use markland.Prelude.{
  ℕ, ◌+◌, String, Bool, true, false, Option, none, some, ◌&&◌, holds, is_some, is_empty, fetchone,
  leb, or_else, if◌then◌else◌,
}
use markland.Model.{DeviceAuthorization, DeviceStatus, Grant, Db, Fresh, whole_second}
use markland.Effects.{Action, Error, Result, ok, err, ◌>>=◌, ◌>>◌, pure, reads, gets, write, commit}
use markland.External.{External}
use markland.Invites.Accept.{accept_invite}
use markland.Device.{
  max_failed_confirms, format_user_code, normalize_user_code, get_device, get_device_by_user_code,
  set_device,
}

-- `invite_error`: the text for a refused invite, or that of an exception
pub data InviteError : Type 0 where
  not_acceptable : InviteError
  raised : Error → InviteError

pub data Reason : Type 0 where
  not_found expired already_authorized denied : Reason

-- AuthorizeResult with `ok` true, and with `ok` false
pub data AuthorizeResult : Type 0 where
  authorized :
      (device_code user_code : String)
      → (invite_token : Option String) → (invite_accepted : Bool)
      → (invite_error : Option InviteError) → AuthorizeResult
  refused : Reason → (codes : Option (String × String)) → AuthorizeResult

abbrev pub lookup_by_any_code : External → Db → String → Option DeviceAuthorization
lookup_by_any_code x db code =
    or_else (get_device db code) (get_device_by_user_code db (normalize_user_code x code))

-- `RETURNING failed_confirms`
abbrev pub count_of : Option DeviceAuthorization → ℕ
count_of none = 0
count_of (some row) = row.failed_confirms

abbrev pub is_pending : DeviceStatus → Bool
is_pending DeviceStatus.pending = true
is_pending _ = false

abbrev pub is_authorized : DeviceStatus → Bool
is_authorized DeviceStatus.authorized = true
is_authorized _ = false

abbrev pub refuse : DeviceAuthorization → Reason → Action AuthorizeResult
refuse row reason = do
  formatted ← reads λ _. format_user_code row.user_code
  pure (AuthorizeResult.refused reason (some (row.device_code, formatted)))

unfoldable pub bump_and_maybe_lock : DeviceAuthorization → Reason → Action AuthorizeResult
bump_and_maybe_lock row reason = do
  write (set_device row.device_code λ r. record r { failed_confirms = r.failed_confirms + 1 })
  new_count ← gets λ db. count_of (get_device db row.device_code)
  if leb max_failed_confirms new_count && is_pending row.status
      then (do
        write (set_device row.device_code λ r. record r { status = DeviceStatus.expired })
        commit
        refuse row Reason.expired)
      else (do commit; refuse row reason)

-- what accepting came to, in `invite_accepted` and `invite_error`
abbrev pub invite_outcome : Result (Option Grant) → Bool × Option InviteError
invite_outcome (ok none) = (false, some InviteError.not_acceptable)
invite_outcome (ok (some g)) = (true, none)
invite_outcome (err e) = (false, some (InviteError.raised e))

module _ (x : External) (fresh : Fresh) where
  -- `if invite_token: try: … except Exception: …`
  unfoldable pub try_invite : Option String → String → Action (Bool × Option InviteError)
  try_invite none user_id = pure (false, none)
  try_invite (some token) user_id = if is_empty token then pure (false, none) else λ c. (
    ok (invite_outcome (accept_invite x fresh token user_id c).0),
    (accept_invite x fresh token user_id c).1,
  )

  unfoldable pub confirm : DeviceAuthorization → String → Action AuthorizeResult
  unfolding try_invite
  confirm row user_id = do
    invite ← try_invite row.invite_token user_id
    write (
        set_device row.device_code λ r. record r {
          status = DeviceStatus.authorized;
          user_id = some user_id;
          authorized_at = some (whole_second fresh.now);
        })
    commit
    formatted ← reads λ _. format_user_code row.user_code
    pure (AuthorizeResult.authorized row.device_code formatted row.invite_token invite.0 invite.1)

  unfoldable pub authorize_row : DeviceAuthorization → String → Action AuthorizeResult
  unfolding bump_and_maybe_lock
  authorize_row row user_id =
      if leb row.expires_at fresh.now
      then bump_and_maybe_lock row Reason.expired
      else elim row.status [
        | DeviceStatus.expired ↦ bump_and_maybe_lock row Reason.expired
        | DeviceStatus.authorized ↦ bump_and_maybe_lock row Reason.already_authorized
        | DeviceStatus.denied ↦ bump_and_maybe_lock row Reason.denied
        | DeviceStatus.pending ↦ confirm row user_id
      ]

  unfoldable pub authorize : String → String → Action AuthorizeResult
  unfolding authorize_row confirm
  authorize code user_id = do
    row ← gets λ db. lookup_by_any_code x db code
    elim row [
      | none ↦ pure (AuthorizeResult.refused Reason.not_found none)
      | some found ↦ authorize_row found user_id
    ]

unfoldable pub has_authorized_device : Db → String → Bool
has_authorized_device db user_id =
    is_some
      (fetchone (λ r. holds r.user_id user_id && is_authorized r.status) db.device_authorizations)
