-- ===== src/Device/Used.antt =====
-- Used device codes stay used.
use markland.Tokens.{create_user_token}
use markland.Device.Confirm.{confirmed, try_invite_outcome}
use markland.Prelude.{
  ◌+◌, String, Bool, true, false, Option, none, some, List, [], ◌++◌, ◌==◌, ap, ◌∷◌, ◌≡◌, ◌≢◌, refl,
  arith, is_some, fetchone, update_where, inl, inr, Option-cases, fetchone-update_where, ap,
  fetchone-append,
}
use markland.Model.{DeviceAuthorization, DeviceStatus, Fresh}
use markland.Effects.{Conn, ok}
use markland.External.{External}
use markland.Device.{has_device_code, get_device, start, unique_user_code, new_device, whole_second}
use markland.Device.Poll.{PollResult, poll, poll_row, expire_device, poll_status, mint}
use markland.Device.Authorize.{
  authorize, bump_and_maybe_lock, confirm, Reason, try_invite, authorize_row, lookup_by_any_code,
}

-- the columns that minting sets
abbrev pub consumed : Fresh → DeviceAuthorization → DeviceAuthorization
consumed fresh r = record r {
  consumed_at = some (whole_second fresh.now);
  polled_last = some (whole_second fresh.now);
}

abbrev pub is_used : Option DeviceAuthorization → Bool
is_used none = false
is_used (some row) = is_some row.consumed_at

-- The device code has been exchanged for a token.
abbrev pub used : List DeviceAuthorization → String → Bool
used rows code = is_used (fetchone (has_device_code code) rows)

used-append :
    (rows more : List DeviceAuthorization) (code : String)
    → used rows code ≡ true
    → used (rows ++ more) code ≡ true
used-append rows more code h = ground (arith, fetchone-append (has_device_code code) rows more)

used-update_where :
    (q : DeviceAuthorization → Bool) (f : DeviceAuthorization → DeviceAuthorization)
    (rows : List DeviceAuthorization) (code : String)
    → ((r : DeviceAuthorization) → (f r).device_code ≡ r.device_code)
    → ((r : DeviceAuthorization) → is_some r.consumed_at ≡ true → is_some (f r).consumed_at ≡ true)
    → used rows code ≡ true
    → used (update_where q f rows) code ≡ true
used-update_where q f rows code keep more h =
    elim (Option-cases (fetchone (has_device_code code) rows)) [
      | inl e ↦ absurd (ground arith)
      | inr (row, e) ↦ ground (
        arith,
        e,
        more row,
        fetchone-update_where (has_device_code code) q f rows λ r. ap (λ d. d == code) (keep r),
      )
    ]

module _ (x : External) (fresh : Fresh) (code : String) (c : Conn)
    (before : used c.db.device_authorizations code ≡ true) where
  pub start_keeps :
      (invite_token : Option String) (base_url : String)
      → used (start fresh invite_token base_url c).1.db.device_authorizations code ≡ true
  unfolding start
  start_keeps invite_token base_url =
      elim (Option-cases (unique_user_code c.db fresh.user_code 10)) [
        | inl e ↦ ground (arith, e)
        | inr (user_code, e) ↦ ground (
          arith,
          e,
          used-append c.db.device_authorizations (new_device fresh user_code invite_token ∷ []) code
              before,
        )
      ]

  poll_row_keeps :
      (row : DeviceAuthorization)
      → used (poll_row x fresh row c).1.db.device_authorizations code ≡ true
  unfolding poll_row expire_device poll_status mint create_user_token
  poll_row_keeps row =
      let q = has_device_code row.device_code in
      let rows = c.db.device_authorizations in
      ground (
        arith,
        used-update_where q (λ r. record r { status = DeviceStatus.expired }) rows code (λ r. refl)
            (λ r h. h) before,
        used-update_where q (λ r. record r { polled_last = some (whole_second fresh.now) }) rows
            code (λ r. refl) (λ r h. h) before,
        used-update_where q (consumed fresh) rows code (λ r. refl) (λ r h. refl) before,
      )

  bump_keeps :
      (row : DeviceAuthorization) (reason : Reason)
      → used (bump_and_maybe_lock row reason c).1.db.device_authorizations code ≡ true
  unfolding bump_and_maybe_lock
  bump_keeps row reason =
      let bump : DeviceAuthorization → DeviceAuthorization =
        λ r. record r { failed_confirms = r.failed_confirms + 1 } in
      let bumped = update_where (has_device_code row.device_code) bump c.db.device_authorizations in
      let bumped_keeps : used bumped code ≡ true =
        used-update_where (has_device_code row.device_code) bump c.db.device_authorizations code
          (λ r. refl) (λ r h. h) before in
      ground (
        arith,
        bumped_keeps,
        used-update_where (has_device_code row.device_code)
            (λ r. record r { status = DeviceStatus.expired }) bumped code (λ r. refl) (λ r h. h)
            bumped_keeps,
      )

  confirm_keeps :
      (row : DeviceAuthorization) (user_id : String)
      → used (confirm x fresh row user_id c).1.db.device_authorizations code ≡ true
  unfolding confirm try_invite
  confirm_keeps row user_id =
      let (o, c', tried, same) = try_invite_outcome x fresh row.invite_token user_id c in
      rw tried (
        ground (
          arith,
          same,
          used-update_where (has_device_code row.device_code) (confirmed fresh user_id)
              c.db.device_authorizations code (λ r. refl) (λ r h. h) before,
        ))

  authorize_row_keeps :
      (row : DeviceAuthorization) (user_id : String)
      → used (authorize_row x fresh row user_id c).1.db.device_authorizations code ≡ true
  unfolding authorize_row
  authorize_row_keeps row user_id = ground (
    arith,
    bump_keeps row Reason.expired,
    bump_keeps row Reason.already_authorized,
    bump_keeps row Reason.denied,
    confirm_keeps row user_id,
  )

  pub poll_keeps :
      (polled : String) → used (poll x fresh polled c).1.db.device_authorizations code ≡ true
  unfolding poll
  poll_keeps polled = elim (Option-cases (get_device c.db polled)) [
    | inl e ↦ rw e before
    | inr (row, e) ↦ rw e (poll_row_keeps row)
  ]

  pub authorize_keeps :
      (presented user_id : String)
      → used (authorize x fresh presented user_id c).1.db.device_authorizations code ≡ true
  unfolding authorize
  authorize_keeps presented user_id = elim (Option-cases (lookup_by_any_code x c.db presented)) [
    | inl e ↦ rw e before
    | inr (row, e) ↦ rw e (authorize_row_keeps row user_id)
  ]

  pub used_refuses : (token : String) → (poll x fresh code c).0 ≢ ok (PollResult.authorized token)
  unfolding poll poll_row expire_device
  used_refuses token h = elim (Option-cases (get_device c.db code)) [
    | inl e ↦ absurd (ground arith)
    | inr (row, e) ↦ absurd (ground (arith, e, before))
  ]
