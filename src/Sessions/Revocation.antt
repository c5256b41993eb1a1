-- ===== src/Sessions/Revocation.antt =====
-- How long a session lives.
use mathlib.Core.Option
use markland.Prelude.{
  ℕ, ◌+◌, String, false, List, [], ◌∷◌, update_where, some, ◌≡◌, refl, ap, ◌∙◌, arith, leb,
  fetchone, is_empty, Bool-cases, inl, inr,
}
use markland.Model.{User, Db}
use markland.Effects.{Conn, ok}
use markland.Permissions.Spec.{is_ok}
use markland.Sessions.{
  Signing, Payload, Loaded, has_user_id, bumped, epoch_of, or_zero, read_user_epoch,
  bump_session_epoch, issue_session, read_session, check_current,
}

-- The signer reads what it signed, as long as that is not older than max_age; so does the serializer.
abbrev pub Unsigns : Signing → String → ℕ → ℕ → ℕ → Type 0
Unsigns s secret issued now max_age =
    (raw : String)
    → (s.unsign secret now max_age (s.sign secret issued raw) ≡ some raw)
      × (is_empty (s.sign secret issued raw) ≡ false)

abbrev pub Loads : Signing → String → Type 0
Loads s secret = (p : Payload) → s.loads secret (s.dumps secret p) ≡ Loaded.payload p

abbrev next : ℕ → ℕ
next n = n + 1

bumped_epoch :
    (user_id : String) (users : List User)
    → Option.map epoch_of
        (fetchone (has_user_id user_id) (update_where (has_user_id user_id) bumped users))
      ≡ Option.map next (Option.map epoch_of (fetchone (has_user_id user_id) users))
unfolding fetchone update_where
bumped_epoch user_id [] = refl
bumped_epoch user_id (u ∷ users) = elim (Bool-cases (has_user_id user_id u)) [
  | inl hit ↦ rw (hit, hit) refl
  | inr miss ↦ rw (miss, miss) (bumped_epoch user_id users)
]

pub bump_session_epoch_lem :
    (user_id : String) (c : Conn) (e : ℕ)
    → read_user_epoch c.db user_id ≡ some e
    → ((bump_session_epoch user_id c).0 ≡ ok (e + 1))
      × (read_user_epoch (bump_session_epoch user_id c).1.db user_id ≡ some (e + 1))
unfolding bump_session_epoch read_user_epoch
bump_session_epoch_lem user_id c e h =
    let after = bumped_epoch user_id c.db.users ∙ ap (Option.map next) h in rw after (refl, after)

read_session-issued :
    (s : Signing) (secret user_id token : String) (issued now max_age e m : ℕ) (db later : Db)
    → Unsigns s secret issued now max_age
    → Loads s secret
    → issue_session s issued user_id secret max_age (some db) ≡ ok token
    → read_user_epoch db user_id ≡ some e
    → read_user_epoch later user_id ≡ some m
    → is_ok (read_session s now token secret max_age (some later)) ≡ leb m e
unfolding issue_session read_session
read_session-issued s secret user_id token issued now max_age e m db later unsigns loads h at_issue
      current =
    let p : Payload = record {
      user_id = user_id;
      exp = issued + max_age;
      epoch = some (or_zero (read_user_epoch db user_id));
    } in
    let raw = s.dumps secret p in
    elim (Bool-cases (is_empty secret)) [
      | inl empty ↦ absurd (ground (arith, empty, h))
      | inr full ↦
          let same : s.sign secret issued raw ≡ token = ground (arith, full, h) in
          rw⁻¹ same
            (rw ((unsigns raw).1, full, (unsigns raw).0, loads p, current, at_issue) (ground arith))
    ]

-- the payload of a cookie of a user with an epoch
abbrev pub issued_payload : String → ℕ → ℕ → Payload
issued_payload user_id exp e = record { user_id = user_id; exp = exp; epoch = some e }

pub read_session-checked :
    (s : Signing) (secret user_id token : String) (issued now max_age e : ℕ) (db later : Db)
    → Unsigns s secret issued now max_age
    → Loads s secret
    → issue_session s issued user_id secret max_age (some db) ≡ ok token
    → read_user_epoch db user_id ≡ some e
    → (read_session s now token secret max_age (some later)
        ≡ check_current
            (issued_payload user_id (issued + max_age) e)
            (read_user_epoch later user_id))
      × ((is_empty token ≡ false) × (is_empty secret ≡ false))
unfolding issue_session read_session
read_session-checked s secret user_id token issued now max_age e db later unsigns loads h at_issue =
    let p = issued_payload user_id (issued + max_age) (or_zero (read_user_epoch db user_id)) in
    let raw = s.dumps secret p in
    elim (Bool-cases (is_empty secret)) [
      | inl empty ↦ absurd (ground (arith, empty, h))
      | inr full ↦
          let same : s.sign secret issued raw ≡ token = ground (arith, full, h) in
          rw⁻¹ same
            (rw ((unsigns raw).1, full, (unsigns raw).0, loads p, at_issue) (refl, (refl, refl)))
    ]

-- A cookie that is issued for a stored user is accepted, within its age, as long as the user's epoch is
-- no higher than at the issue: by a database of any later time, exactly if that epoch is at most the
-- one at the issue. A logout succeeds and raises the epoch by one, so that the cookie is then refused.
pub read_session-lifetime :
    (s : Signing) (secret user_id token : String) (issued now max_age e m : ℕ) (c : Conn)
    (later : Db)
    → Unsigns s secret issued now max_age
    → Loads s secret
    → issue_session s issued user_id secret max_age (some c.db) ≡ ok token
    → read_user_epoch c.db user_id ≡ some e
    → read_user_epoch later user_id ≡ some m
    → (is_ok (read_session s now token secret max_age (some later)) ≡ leb m e)
      × ((bump_session_epoch user_id c).0 ≡ ok (e + 1))
      × (is_ok (read_session s now token secret max_age (some (bump_session_epoch user_id c).1.db))
          ≡ false)
read_session-lifetime s secret user_id token issued now max_age e m c later unsigns loads h at_issue
      current =
    let out = bump_session_epoch_lem user_id c e at_issue in
    let read_at = λ (n : ℕ) (d : Db).
      read_session-issued s secret user_id token issued now max_age e n c.db d unsigns loads h
        at_issue in
    (
      read_at m later current,
      out.0,
      read_at (e + 1) (bump_session_epoch user_id c).1.db out.1 ∙ ground arith,
    )
