-- ===== src/MagicLink/SingleUse.antt =====
-- A magic link logs in once, although used links are forgotten after a while.
use markland.Prelude.{
  ℕ, ◌+◌, ◌-◌, ◌≤◌, String, Bool, true, false, Option, none, some, List, [], ◌∷◌, ◌≡◌, ◌≢◌, refl,
  arith, fetchone, delete_where, leb, is_empty, inl, inr, Option-cases, Bool-cases, fetchone-append,
  fetchone-delete_where_kept, fetchone_one, eq_refl, ◌⊎◌, ap, subst,
}
use markland.Model.{ConsumedLink}
use markland.Effects.{Conn, Result, ok, err, Error, value_error}
use markland.MagicLink.{
  Loaded, Serializer, read_payload, has_jti, is_old, consume_payload, consume_magic_link_token,
}

abbrev pub is_recent : ℕ → Option ConsumedLink → Bool
is_recent since none = false
is_recent since (some link) = leb since link.consumed_at

-- The link is recorded as used, at the time `since` or later.
abbrev pub recorded : ℕ → String → Conn → Bool
recorded since jti c = is_recent since (fetchone (has_jti jti) c.db.magic_link_consumed)

consume_payload_keeps :
    (now max_age since : ℕ) (email jti jti' : String) (c : Conn)
    → now - max_age ≤ since
    → recorded since jti' c ≡ true
    → recorded since jti' (consume_payload now max_age email jti c).1 ≡ true
unfolding consume_payload
consume_payload_keeps now max_age since email jti jti' c h before =
    elim (Option-cases (fetchone (has_jti jti') c.db.magic_link_consumed)) [
      | inl e ↦ absurd (ground arith)
      | inr (link, e) ↦
          let kept =
            fetchone-delete_where_kept (has_jti jti') (is_old now max_age) c.db.magic_link_consumed
              link e (ground arith) in
          ground (
            arith,
            e,
            kept,
            fetchone-append (has_jti jti')
                (delete_where (is_old now max_age) c.db.magic_link_consumed)
                (record { jti = jti; email = email; consumed_at = now } ∷ []),
          )
    ]

consume_payload_records :
    (now max_age : ℕ) (email jti email' : String) (c : Conn)
    → (consume_payload now max_age email jti c).0 ≡ ok email'
    → recorded now jti (consume_payload now max_age email jti c).1 ≡ true
unfolding consume_payload
consume_payload_records now max_age email jti email' c h =
    let rows = delete_where (is_old now max_age) c.db.magic_link_consumed in
    let new : ConsumedLink = record { jti = jti; email = email; consumed_at = now } in
    ground (
      arith,
      h,
      fetchone-append (has_jti jti) rows (new ∷ []),
      fetchone_one (has_jti jti) new,
      eq_refl jti,
    )

consume_payload_email :
    (now max_age : ℕ) (email jti email' : String) (c : Conn)
    → (consume_payload now max_age email jti c).0 ≡ ok email'
    → email ≡ email'
unfolding consume_payload
consume_payload_email now max_age email jti email' c h = ground (arith, h)

consume_payload_refuses :
    (now max_age since : ℕ) (email jti email' : String) (c : Conn)
    → now - max_age ≤ since
    → recorded since jti c ≡ true
    → (consume_payload now max_age email jti c).0 ≢ ok email'
unfolding consume_payload
consume_payload_refuses now max_age since email jti email' c h before done =
    elim (Option-cases (fetchone (has_jti jti) c.db.magic_link_consumed)) [
      | inl e ↦ absurd (ground arith)
      | inr (link, e) ↦
          let kept =
            fetchone-delete_where_kept (has_jti jti) (is_old now max_age) c.db.magic_link_consumed
              link e (ground arith) in
          absurd (ground (arith, e, kept))
    ]

abbrev Loaded-view : Loaded → Type 0
Loaded-view l =
    ((email : String) × (jti : String) × (l ≡ Loaded.payload (some email) (some jti)))
    ⊎ ((e : Error) × (read_payload l ≡ err e))

Loaded-cases : (l : Loaded) → Loaded-view l
Loaded-cases Loaded.bad_signature = inr (_, refl)
Loaded-cases Loaded.signature_expired = inr (_, refl)
Loaded-cases Loaded.no_dict = inr (_, refl)
Loaded-cases (Loaded.payload (some email) (some jti)) = inl (email, jti, refl)
Loaded-cases (Loaded.payload (some email) none) = inr (_, refl)
Loaded-cases (Loaded.payload none jti) = inr (_, refl)

module _ (s : Serializer) (loaded_at now max_age : ℕ) (secret token : String) (c : Conn) where
  -- A try either reaches the table with a loaded payload or raises before it.
  abbrev Payload : Type 0
  Payload =
      (email : String) × (jti : String) × (s.loads secret loaded_at max_age token
        ≡ Loaded.payload (some email) (some jti))
      × (consume_magic_link_token s loaded_at now max_age secret token c
          ≡ consume_payload now max_age email jti c)

  consume_cases :
      Payload
      ⊎ ((e : Error) × (consume_magic_link_token s loaded_at now max_age secret token c
            ≡ (err e, c)))
  unfolding consume_magic_link_token
  consume_cases = elim (Bool-cases (is_empty secret)) [
    | inl empty ↦ inr (value_error "session secret must be non-empty", rw empty refl)
    | inr there ↦ elim (Loaded-cases (s.loads secret loaded_at max_age token)) [
      | inl (email, jti, e) ↦ inl (email, jti, e, rw (there, e) refl)
      | inr (er, e) ↦ inr (er, rw (there, e) refl)
    ]
  ]

  consumed_payload :
      (email : String)
      → (consume_magic_link_token s loaded_at now max_age secret token c).0 ≡ ok email
      → Payload
  consumed_payload email h = elim consume_cases [
    | inl p ↦ p
    | inr (e, failed) ↦ absurd (cc (ap (λ r. r.0) failed, h))
  ]

  -- a link that is consumed is worth the email that itsdangerous loads from it
  pub consumed_link :
      (email : String)
      → (consume_magic_link_token s loaded_at now max_age secret token c).0 ≡ ok email
      → (jti : String) × (s.loads secret loaded_at max_age token
          ≡ Loaded.payload (some email) (some jti))
  consumed_link email h =
      let (e, jti, loads, reached) = consumed_payload email h in
      let same = consume_payload_email now max_age e jti email c (rw reached at h) in
      (
        jti,
        subst (λ a. s.loads secret loaded_at max_age token ≡ Loaded.payload (some a) (some jti))
            same loads,
      )

  consume_keeps :
      (since : ℕ) (jti : String)
      → now - max_age ≤ since
      → recorded since jti c ≡ true
      → recorded since jti (consume_magic_link_token s loaded_at now max_age secret token c).1
        ≡ true
  consume_keeps since jti h before = elim consume_cases [
    | inl (email, jti', loads, same) ↦
        rw same (consume_payload_keeps now max_age since email jti' jti c h before)
    | inr (e, failed) ↦ rw failed before
  ]

-- A try of a link: the two readings of the clock, and the token.
pub record Try : Type 0 where
  pub loaded_at : ℕ
  pub now : ℕ
  pub token : String

module _ (s : Serializer) (max_age : ℕ) (secret : String) where
  abbrev pub attempt : Try → Conn → Result String × Conn
  attempt t c = consume_magic_link_token s t.loaded_at t.now max_age secret t.token c

  -- Other links, or the same one, that are tried one after the other.
  abbrev pub run : List Try → Conn → Conn
  run [] c = c
  run (t ∷ links) c = run links (attempt t c).1

  abbrev pub AllBefore : ℕ → List Try → Type 0
  AllBefore now [] = Unit
  AllBefore now (t ∷ links) = (t.now ≤ now) × AllBefore now links

  run_keeps :
      (since last : ℕ) (jti : String) (links : List Try) (c : Conn)
      → last - max_age ≤ since
      → AllBefore last links
      → recorded since jti c ≡ true
      → recorded since jti (run links c) ≡ true
  run_keeps since last jti [] c h before r = r
  run_keeps since last jti (t ∷ links) c h before r = run_keeps since last jti links _ h before.1 (
      consume_keeps s t.loaded_at t.now max_age secret t.token c since jti
        (omega (arith, before.0, h)) r)

  -- What itsdangerous promises: what it loads was signed no later than now and at most max_age ago,
  -- and a token carries one payload.
  abbrev pub IsTimed : (String → ℕ) → Type 0
  IsTimed signed_at =
      (now : ℕ) (token email jti : String)
      → s.loads secret now max_age token ≡ Loaded.payload (some email) (some jti)
      → (signed_at token ≤ now) × (now ≤ signed_at token + max_age)

  abbrev pub IsFixed : Type 0
  IsFixed =
      (now now' : ℕ) (token email email' jti jti' : String)
      → s.loads secret now max_age token ≡ Loaded.payload (some email) (some jti)
      → s.loads secret now' max_age token ≡ Loaded.payload (some email') (some jti')
      → jti ≡ jti'

module _ (s : Serializer) (max_age : ℕ) (secret : String) (signed_at : String → ℕ)
    (timed : IsTimed s max_age secret signed_at) (fixed : IsFixed s max_age secret)
    (first second : Try) (same : second.token ≡ first.token) (email email' : String) where
  -- A try that is loaded after max_age from the first use is of a token whose signature is too old.
  too_late :
      (e jti e' jti' : String)
      → s.loads secret first.loaded_at max_age first.token ≡ Loaded.payload (some e) (some jti)
      → s.loads secret second.loaded_at max_age second.token ≡ Loaded.payload (some e') (some jti')
      → first.loaded_at ≤ first.now
      → second.loaded_at ≤ first.now + max_age
  too_late e jti e' jti' loads loads' ordered =
      let one = ap signed_at same in
      omega (
        arith,
        one,
        (timed first.loaded_at first.token e jti loads).0,
        (timed second.loaded_at second.token e' jti' loads').1,
        ordered,
      )

  -- A magic link logs in once: after a token has been consumed, no later try of it consumes it again,
  -- whatever links are tried in between, although each try forgets the links that were used more than
  -- max_age seconds ago. A try reads the clock twice, for the signature and then for the table, and the
  -- condition is that the readings of the later try do not stand on the two sides of the moment
  -- max_age after the first use. The signatures are taken to be timed, and each token to carry one
  -- payload.
  pub consume_magic_link_token-single_use :
      (links : List Try) (c : Conn)
      → first.loaded_at ≤ first.now
      → AllBefore s max_age secret second.now links
      → leb second.now (first.now + max_age) ≡ leb second.loaded_at (first.now + max_age)
      → (attempt s max_age secret first c).0 ≡ ok email
      → (attempt s max_age secret second
          (run s max_age secret links (attempt s max_age secret first c).1)).0
        ≢ ok email'
  consume_magic_link_token-single_use links c ordered before aside used again =
      let c1 = (attempt s max_age secret first c).1 in
      let c2 = run s max_age secret links c1 in
      let (e, jti, loads, reached) =
        consumed_payload s first.loaded_at first.now max_age secret first.token c email used in
      let (e', jti', loads', reached') =
        consumed_payload s second.loaded_at second.now max_age secret second.token c2 email'
          again in
      let in_time = too_late e jti e' jti' loads loads' ordered in
      let recent : second.now - max_age ≤ first.now = ground (arith, aside, in_time) in
      let one : jti ≡ jti' =
        fixed first.loaded_at second.loaded_at first.token e e' jti jti' loads (
          subst
            (λ t. s.loads secret second.loaded_at max_age t ≡ Loaded.payload (some e') (some jti'))
            same loads') in
      let kept : recorded first.now jti' c1 ≡ true =
        subst (λ j. recorded first.now j c1 ≡ true) one
          (rw reached
            (consume_payload_records first.now max_age e jti email c (rw reached at used))) in
      let still =
        run_keeps s max_age secret first.now second.now jti' links c1 recent before kept in
      consume_payload_refuses second.now max_age first.now e' jti' email' c2 recent still
        (rw reached' at again)
