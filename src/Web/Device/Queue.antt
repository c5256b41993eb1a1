-- ===== src/Web/Device/Queue.antt =====
-- The queue of one key of SlidingWindowRateLimiter (web/device_routes.py): what the dropping of old hits and
-- the collection of stale keys leave of the hits inside the window.
use markland.Prelude.{
  ℕ, ◌≤◌, ◌-◌, ◌≡◌, refl, sym, ◌∙◌, ap, inl, inr, Bool, true, false, some, List, [], ◌∷◌, ◌++◌,
  arith, select, select-append, leb, ltb, All, Bool-cases,
}
use markland.Paging.Rows.{select-select, select-All}
use markland.Web.Device.{recent, newest, is_stale_hit}

-- the hit is no older than the window
abbrev pub within : (now window t : ℕ) → Bool
within now window t = leb (now - t) window

-- The oldest hit is first, and none is after a time.
abbrev pub IsQueue : ℕ → List ℕ → Type 0
IsQueue time [] = Unit {0}
IsQueue time (t ∷ q) = (t ≤ time) × (All (λ s. t ≤ s) q × IsQueue time q)

IsQueue-later : (time later : ℕ) (q : List ℕ) → time ≤ later → IsQueue time q → IsQueue later q
IsQueue-later time later [] h k = tt
IsQueue-later time later (t ∷ q) h k =
    (omega (arith, h, k.0), (k.1.0, IsQueue-later time later q h k.1.1))

All-select : (P : ℕ → Type 0) (p : ℕ → Bool) (q : List ℕ) → All P q → All P (select p q)
unfolding select
All-select P p [] h = tt
All-select P p (t ∷ q) h = elim (Bool-cases (p t)) [
  | inl e ↦ rw e (h.0, All-select P p q h.1)
  | inr e ↦ rw e (All-select P p q h.1)
]

IsQueue-select : (time : ℕ) (p : ℕ → Bool) (q : List ℕ) → IsQueue time q → IsQueue time (select p q)
unfolding select
IsQueue-select time p [] h = tt
IsQueue-select time p (t ∷ q) h = elim (Bool-cases (p t)) [
  | inl e ↦ rw e (h.0, (All-select (λ s. t ≤ s) p q h.1.0, IsQueue-select time p q h.1.1))
  | inr e ↦ rw e (IsQueue-select time p q h.1.1)
]

All-snoc :
    (t now : ℕ) (q : List ℕ) → t ≤ now → All (λ s. t ≤ s) q → All (λ s. t ≤ s) (q ++ now ∷ [])
All-snoc t now [] h k = (h, tt)
All-snoc t now (s ∷ q) h k = (k.0, All-snoc t now q h k.1)

IsQueue-snoc : (now : ℕ) (q : List ℕ) → IsQueue now q → IsQueue now (q ++ now ∷ [])
IsQueue-snoc now [] h = (omega arith, (tt, tt))
IsQueue-snoc now (t ∷ q) h = (h.0, (All-snoc t now q h.0 h.1.0, IsQueue-snoc now q h.1.1))

module _ (now window : ℕ) where
  within-All :
      (t : ℕ) (q : List ℕ)
      → within now window t ≡ true
      → All (λ s. t ≤ s) q
      → All (λ s. within now window s ≡ true) q
  within-All t [] h k = tt
  within-All t (s ∷ q) h k = (ground (arith, h, k.0), within-All t q h k.1)

  -- what is left once old hits are dropped from the front is all that is in the window
  pub recent-select :
      (time : ℕ) (q : List ℕ) → IsQueue time q → recent now window q ≡ select (within now window) q
  unfolding recent select
  recent-select time [] h = refl
  recent-select time (t ∷ q) h = elim (Bool-cases (within now window t)) [
    | inl e ↦
        let all = select-All (within now window) q (within-All t q e h.1.0) in
        let fresh : ltb window (now - t) ≡ false = ground (arith, e) in rw (e, fresh, all) refl
    | inr e ↦
        let old : ltb window (now - t) ≡ true = ground (arith, e) in
        rw (e, old) (recent-select time q h.1.1)
  ]

  newest-le :
      (time t : ℕ) (q : List ℕ)
      → IsQueue time (t ∷ q)
      → (s : ℕ) × (newest (t ∷ q) ≡ some s) × (t ≤ s)
  newest-le time t [] h = (t, refl, omega arith)
  newest-le time t (s ∷ q) h =
      let last = newest-le time s q h.1.1 in
      (last.0, rw last.1 refl, omega (arith, h.1.0.0, last.2))

  -- a stale key has no hit in the window
  pub stale-select :
      (time : ℕ) (q : List ℕ)
      → IsQueue time q
      → is_stale_hit now window (newest q) ≡ true
      → select (within now window) q ≡ []
  unfolding select
  stale-select time [] h k = refl
  stale-select time (t ∷ []) h k = ground (arith, k)
  stale-select time (t ∷ s ∷ q) h k =
      let last = newest-le time s q h.1.1 in
      let old : is_stale_hit now window (newest (s ∷ q)) ≡ true = rw last.1 (rw last.1 at k) in
      let rest = stale-select time (s ∷ q) h.1.1 old in
      let gone : within now window t ≡ false =
        ground (arith, (rw last.1 at old), last.2, h.1.0.0) in
      rw gone rest

  pub select-later :
      (later : ℕ) (q : List ℕ)
      → now ≤ later
      → select (within later window) (select (within now window) q) ≡ select (within later window) q
  select-later later q h =
      select-select (within later window) (within now window) q (λ t k. ground (arith, k, h))

-- The queue shows what a log of the key's allowed calls shows, from a time on.
abbrev pub Keeps : (time window : ℕ) → List ℕ → List ℕ → Type 0
Keeps time window log q =
    IsQueue time q
    × ((n : ℕ) → time ≤ n → select (within n window) q ≡ select (within n window) log)

module _ (time window : ℕ) (log q : List ℕ) (k : Keeps time window log q) where
  pub Keeps-later : (later : ℕ) → time ≤ later → Keeps later window log q
  Keeps-later later h = (IsQueue-later time later q h k.0, λ n m. k.1 n (omega (arith, h, m)))

  pub Keeps-recent : Keeps time window log (recent time window q)
  Keeps-recent = rw (recent-select time window time q k.0) (
    IsQueue-select time (within time window) q k.0,
    λ n m. select-later time window n q m ∙ k.1 n m,
  )

  pub Keeps-stale : is_stale_hit time window (newest q) ≡ true → Keeps time window log []
  unfolding select
  Keeps-stale h = (
    tt,
    λ n m.
        ap (select (within n window)) (sym (stale-select time window time q k.0 h))
        ∙ select-later time window n q m
        ∙ k.1 n m,
  )

  pub Keeps-hit : Keeps time window (log ++ time ∷ []) (q ++ time ∷ [])
  Keeps-hit = (
    IsQueue-snoc time q k.0,
    λ n m.
        select-append (within n window) q (time ∷ [])
        ∙ ap (λ xs. xs ++ select (within n window) (time ∷ [])) (k.1 n m)
        ∙ sym (select-append (within n window) log (time ∷ [])),
  )
