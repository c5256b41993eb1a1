-- ===== src/Device/Exchange.antt =====
-- How a confirmed device code becomes a token.
use Prim.Native.String.{◌++◌ as ◌+++◌}
use markland.Tokens.{plaintext, may_insert_token, new_user_token, create_user_token}
use markland.Device.Poll.{PollResult, too_soon, poll, poll_row, poll_status, mint}
use markland.Prelude.{
  [], ◌∷◌, ◌++◌, ◌<◌, String, true, false, none, some, ◌≡◌, refl, arith, inl, inr,
}
use markland.Model.{DeviceAuthorization, DeviceStatus, Fresh}
use markland.Effects.{Conn, ok}
use markland.External.{External}
use markland.Device.{get_device, format_user_code}
use markland.Device.Authorize.{lookup_by_any_code, authorize}
use markland.Device.Confirm.{confirmed, authorize-outcome}

-- A poll of a row that is confirmed and not yet used.
poll_confirmed :
    (x : External) (fresh : Fresh) (code user_id : String) (c : Conn) (row : DeviceAuthorization)
    → get_device c.db code ≡ some row
    → row.status ≡ DeviceStatus.authorized
    → row.user_id ≡ some user_id
    → row.consumed_at ≡ none
    → too_soon fresh.now row.polled_last ≡ false
    → fresh.now < row.expires_at
    → may_insert_token c.db fresh.token_id (x.sha256_hex (plaintext fresh)) ≡ true
    → ((poll x fresh code c).0 ≡ ok (PollResult.authorized (plaintext fresh)))
      × ((poll x fresh code c).1.db.tokens
          ≡ c.db.tokens ++ new_user_token x fresh user_id ("Device flow " +++ x.iso fresh.now) ∷ [])
unfolding poll poll_row poll_status mint create_user_token
poll_confirmed x fresh code user_id c row found is_confirmed bound unused rested early free =
    (ground arith, ground arith)

-- Once a pending and unused code has been confirmed for a user, a poll of the device code before its
-- time, and not within five seconds of the last one, returns the fresh token, and stores its hash and
-- digest as that user's, if the token's id and digest are free.
pub authorize-poll :
    (x : External) (fresh fresh' : Fresh) (presented user_id formatted : String) (c : Conn)
    (row : DeviceAuthorization)
    → lookup_by_any_code x c.db presented ≡ some row
    → get_device c.db row.device_code ≡ some row
    → format_user_code row.user_code ≡ ok formatted
    → row.status ≡ DeviceStatus.pending
    → row.consumed_at ≡ none
    → too_soon fresh'.now row.polled_last ≡ false
    → fresh.now < row.expires_at
    → fresh'.now < row.expires_at
    → may_insert_token
        (authorize x fresh presented user_id c).1.db
        fresh'.token_id
        (x.sha256_hex (plaintext fresh'))
      ≡ true
    → ((poll x fresh' row.device_code (authorize x fresh presented user_id c).1).0
        ≡ ok (PollResult.authorized (plaintext fresh')))
      × ((poll x fresh' row.device_code (authorize x fresh presented user_id c).1).1.db.tokens
          ≡ (authorize x fresh presented user_id c).1.db.tokens
            ++ new_user_token x fresh' user_id ("Device flow " +++ x.iso fresh'.now) ∷ [])
authorize-poll x fresh fresh' presented user_id formatted c row found stored formats pending unused
      rested early early' free =
    elim (authorize-outcome x fresh presented user_id formatted c row found stored formats) [
      | inl (p, t, (o, done, bound)) ↦
          poll_confirmed x fresh' row.device_code user_id (authorize x fresh presented user_id c).1
            (confirmed fresh user_id row) bound refl refl unused rested early' free
      | inr (closed, reason, done) ↦ elim closed [
        | inl ne ↦ absurd (ne pending)
        | inr late ↦ absurd (omega (arith, late, early))
      ]
    ]
