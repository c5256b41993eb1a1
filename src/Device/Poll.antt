-- ===== src/Device/Poll.antt =====
-- service/device_flow.py: poll. Its route is run in a thread pool, and no lock or transaction spans the call:
-- another poll may run between the reading of the row and answer_row.
use Prim.Native.String.{◌++◌ as ◌+++◌}
use markland.Prelude.{
  ℕ, ◌-◌, String, Bool, false, Option, none, some, is_some, ltb, leb, if◌then◌else◌,
}
use markland.Model.{DeviceAuthorization, DeviceStatus, Fresh, whole_second}
use markland.Effects.{Action, ◌>>=◌, ◌>>◌, pure, gets, write, commit}
use markland.External.{External}
use markland.Tokens.{create_user_token}
use markland.Device.{slow_down_window, get_device, set_device}

-- the answers: a status, and the token with 'authorized'
pub data PollResult : Type 0 where
  not_found slow_down expired denied pending : PollResult
  authorized : String → PollResult

-- `(now - last).total_seconds() < 5`, also where the clock has gone back
abbrev pub too_soon : ℕ → Option ℕ → Bool
too_soon now none = false
too_soon now (some last) = ltb (now - last) slow_down_window

unfoldable pub expire_device : DeviceAuthorization → Action PollResult
expire_device row = elim row.status [
  | DeviceStatus.expired ↦ pure PollResult.expired
  | _ ↦ do
    write (set_device row.device_code λ r. record r { status = DeviceStatus.expired })
    commit
    pure PollResult.expired
]

module _ (x : External) (fresh : Fresh) where
  unfoldable pub mint : DeviceAuthorization → Option String → Action PollResult
  mint row none = pure PollResult.expired
  mint row (some user_id) = do
    token ← create_user_token x fresh user_id ("Device flow " +++ x.iso fresh.now)
    write (
        set_device row.device_code λ r. record r {
          consumed_at = some (whole_second fresh.now);
          polled_last = some (whole_second fresh.now);
        })
    commit
    pure (PollResult.authorized token.1)

  -- what follows the checks of the rate, of an earlier use and of the time
  unfoldable pub poll_status : DeviceAuthorization → Action PollResult
  poll_status row = elim row.status [
    | DeviceStatus.expired ↦ pure PollResult.expired
    | DeviceStatus.denied ↦ pure PollResult.denied
    | DeviceStatus.pending ↦ do
      write
          (set_device row.device_code λ r. record r { polled_last = some (whole_second fresh.now) })
      commit
      pure PollResult.pending
    | DeviceStatus.authorized ↦ mint row row.user_id
  ]

  unfoldable pub poll_row : DeviceAuthorization → Action PollResult
  unfolding expire_device
  poll_row row =
      if too_soon fresh.now row.polled_last
      then pure PollResult.slow_down
      else if is_some row.consumed_at
      then pure PollResult.expired
      else if leb row.expires_at fresh.now
      then expire_device row
      else poll_status row

  -- What a poll does with the row that it read; it does not read it again before it mints.
  abbrev pub answer_row : Option DeviceAuthorization → Action PollResult
  answer_row none = pure PollResult.not_found
  answer_row (some row) = poll_row row

  -- A whole call: no other thread comes between the reading of the row and the rest.
  unfoldable pub poll : String → Action PollResult
  poll device_code = do row ← gets λ db. get_device db device_code; answer_row row
