-- ===== src/Device/Confirm.antt =====
-- What confirming a device code comes to.
use markland.Invites.Accept.{accept_invite}
use markland.Device.Authorize.{invite_outcome, bump_and_maybe_lock, is_pending}
use markland.Prelude.{
  ◌&&◌, ◌≤◌, ◌≢◌, ◌⊎◌, ap, ◌+◌, if◌then◌else◌, ◌==◌, ◌<◌, String, Bool, false, Option, none, some,
  ◌≡◌, refl, arith, inl, inr, Bool-cases, is_empty, update_where, eq_refl, fetchone-update_where,
  leb, ◌⊎◌,
}
use markland.Model.{DeviceAuthorization, DeviceStatus, Fresh, whole_second}
use markland.Effects.{Conn, ok}
use markland.External.{External}
use markland.Invites.Acceptance.{accept_invite-device_authorizations}
use markland.Device.{
  has_device_code, get_device, format_user_code, List, fetchone, Result, max_failed_confirms,
}
use markland.Device.Authorize.{
  InviteError, AuthorizeResult, Reason, lookup_by_any_code, try_invite, confirm, authorize_row,
  authorize, invite_outcome,
}

-- the columns that confirming sets
abbrev pub confirmed : Fresh → String → DeviceAuthorization → DeviceAuthorization
confirmed fresh user_id r = record r {
  status = DeviceStatus.authorized;
  user_id = some user_id;
  authorized_at = some (whole_second fresh.now);
}

-- Accepting the invite raises nothing that is let through, and does not touch the device codes.
pub try_invite_outcome :
    (x : External) (fresh : Fresh) (invite_token : Option String) (user_id : String) (c : Conn)
    → (o : Bool × Option InviteError) × (c' : Conn) × (try_invite x fresh invite_token user_id c
        ≡ (ok o, c'))
      × (c'.db.device_authorizations ≡ c.db.device_authorizations)
unfolding try_invite
try_invite_outcome x fresh none user_id c = ((false, none), c, refl, refl)
try_invite_outcome x fresh (some token) user_id c = elim (Bool-cases (is_empty token)) [
  | inl e ↦ ((false, none), c, rw e refl, refl)
  | inr e ↦ (
    invite_outcome (accept_invite x fresh token user_id c).0,
    (accept_invite x fresh token user_id c).1,
    rw e refl,
    accept_invite-device_authorizations x fresh token user_id c,
  )
]

-- the rows with the row's own code are rewritten, and the row is still the one found
pub found_row_set :
    (f : DeviceAuthorization → DeviceAuthorization) (rows : List DeviceAuthorization)
    (code : String) (row : DeviceAuthorization)
    → ((r : DeviceAuthorization) → (f r).device_code ≡ r.device_code)
    → fetchone (has_device_code code) rows ≡ some row
    → fetchone (has_device_code code) (update_where (has_device_code row.device_code) f rows)
      ≡ some (f row)
found_row_set f rows code row keep found = ground (
  arith,
  found,
  eq_refl row.device_code,
  fetchone-update_where (has_device_code code) (has_device_code row.device_code) f rows
      λ r. ap (λ d. d == code) (keep r),
)

-- The fifth attempt at a pending row locks it.
abbrev pub locks : DeviceAuthorization → Bool
locks row = leb max_failed_confirms (row.failed_confirms + 1) && is_pending row.status

abbrev pub counted : DeviceAuthorization → DeviceAuthorization
counted r = record r { failed_confirms = r.failed_confirms + 1 }

-- the row after a refused attempt, and the reason that is given
abbrev pub after_attempt : DeviceAuthorization → DeviceAuthorization
after_attempt row =
    if locks row then record (counted row) { status = DeviceStatus.expired } else counted row

abbrev pub shown_reason : DeviceAuthorization → Reason → Reason
shown_reason row reason = if locks row then Reason.expired else reason

-- The answer and the row after a refused attempt, and after a confirmation.
abbrev pub Refused : String → DeviceAuthorization → Result AuthorizeResult × Conn → Reason → Type 0
Refused formatted row r reason =
    (r.0
      ≡ ok (AuthorizeResult.refused (shown_reason row reason) (some (row.device_code, formatted))))
    × (get_device r.1.db row.device_code ≡ some (after_attempt row))

abbrev pub Confirmed :
    Fresh → String → String → DeviceAuthorization → Result AuthorizeResult × Conn → Type 0
Confirmed fresh user_id formatted row r =
    (o : Bool × Option InviteError) × (r.0
      ≡ ok (AuthorizeResult.authorized row.device_code formatted row.invite_token o.0 o.1))
    × (get_device r.1.db row.device_code ≡ some (confirmed fresh user_id row))

module _ (x : External) (fresh : Fresh) (user_id formatted : String) (c : Conn)
    (row : DeviceAuthorization) (stored : get_device c.db row.device_code ≡ some row)
    (formats : format_user_code row.user_code ≡ ok formatted) where
  bump_lem : (reason : Reason) → Refused formatted row (bump_and_maybe_lock row reason c) reason
  unfolding bump_and_maybe_lock
  bump_lem reason =
      let q = has_device_code row.device_code in
      let once =
        found_row_set counted c.db.device_authorizations row.device_code row (λ r. refl) stored in
      let twice =
        found_row_set (λ r. record r { status = DeviceStatus.expired })
          (update_where q counted c.db.device_authorizations) row.device_code (counted row)
          (λ r. refl) once in
      (ground (arith, once, formats), ground (arith, once, twice, formats))

  confirm_lem : Confirmed fresh user_id formatted row (confirm x fresh row user_id c)
  unfolding confirm
  confirm_lem =
      let (o, c', tried, same) = try_invite_outcome x fresh row.invite_token user_id c in
      let set =
        found_row_set (confirmed fresh user_id) c.db.device_authorizations row.device_code row
          (λ r. refl) stored in
      (o, rw (tried, formats) refl, rw (tried, same, formats) set)

  -- Whether a row can be confirmed.
  abbrev pub Open : Type 0
  Open = (row.status ≡ DeviceStatus.pending) × (fresh.now < row.expires_at)

  abbrev pub Closed : Type 0
  Closed = (row.status ≢ DeviceStatus.pending) ⊎ (row.expires_at ≤ fresh.now)

  abbrev Outcome : Result AuthorizeResult × Conn → Type 0
  Outcome r =
      (Open × Confirmed fresh user_id formatted row r)
      ⊎ (Closed × (reason : Reason) × Refused formatted row r reason)

  refused_row :
      (reason : Reason)
      → Closed
      → authorize_row x fresh row user_id c ≡ bump_and_maybe_lock row reason c
      → Outcome (authorize_row x fresh row user_id c)
  refused_row reason closed same = inr (closed, reason, rw same (bump_lem reason))

  confirmed_row :
      Open
      → authorize_row x fresh row user_id c ≡ confirm x fresh row user_id c
      → Outcome (authorize_row x fresh row user_id c)
  confirmed_row pending same = inl (pending, rw same confirm_lem)

  early-Outcome :
      (s : DeviceStatus)
      → leb row.expires_at fresh.now ≡ false
      → row.status ≡ s
      → Outcome (authorize_row x fresh row user_id c)
  unfolding authorize_row
  early-Outcome DeviceStatus.pending early e =
      confirmed_row (e, ground arith) (ground (arith, early, e))
  early-Outcome DeviceStatus.authorized early e =
      refused_row Reason.already_authorized (inl (ground arith)) (ground (arith, early, e))
  early-Outcome DeviceStatus.expired early e =
      refused_row Reason.expired (inl (ground arith)) (ground (arith, early, e))
  early-Outcome DeviceStatus.denied early e =
      refused_row Reason.denied (inl (ground arith)) (ground (arith, early, e))

  pub authorize_row-Outcome : Outcome (authorize_row x fresh row user_id c)
  unfolding authorize_row
  authorize_row-Outcome = elim (Bool-cases (leb row.expires_at fresh.now)) [
    | inl late ↦ refused_row Reason.expired (inr (ground arith)) (ground (arith, late))
    | inr early ↦ early-Outcome row.status early refl
  ]

-- Presenting the device code or the user code of a stored row confirms it, if it is pending and its
-- time has not come, whatever the number of refused attempts before, and binds it to the user. Any
-- other row is refused: the attempt is counted, a pending row is locked from the fifth attempt on,
-- and nothing else of the row changes.
pub authorize-outcome :
    (x : External) (fresh : Fresh) (presented user_id formatted : String) (c : Conn)
    (row : DeviceAuthorization)
    → lookup_by_any_code x c.db presented ≡ some row
    → get_device c.db row.device_code ≡ some row
    → format_user_code row.user_code ≡ ok formatted
    → ((row.status ≡ DeviceStatus.pending)
        × (fresh.now < row.expires_at)
        × Confirmed fresh user_id formatted row (authorize x fresh presented user_id c))
      ⊎ (((row.status ≢ DeviceStatus.pending) ⊎ (row.expires_at ≤ fresh.now))
          × (reason : Reason) × Refused formatted row
              (authorize x fresh presented user_id c)
              reason)
unfolding authorize
authorize-outcome x fresh presented user_id formatted c row found stored formats =
    elim (authorize_row-Outcome x fresh user_id formatted c row stored formats) [
      | inl (pending, done) ↦ inl (pending.0, pending.1, rw found done)
      | inr (closed, reason, done) ↦ inr (closed, reason, rw found done)
    ]
