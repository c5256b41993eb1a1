-- ===== src/RateLimit/Credit.antt =====
-- What the bucket of a key can pay for, and what a check leaves of it.
use markland.Prelude.{
  ℕ, ◌≤◌, ◌+◌, ◌*◌, ◌-◌, min, ◌≡◌, refl, ap, inl, inr, String, Option, none, some, ◌==◌, arith,
  fetchone, Bool-cases, All, All-fetchone, eq_iff, if◌then◌else◌, ◌∙◌, All-map,
}
use native.Mathlib.Nat as Nat
use markland.RateLimit.{
  Tier, Bucket, RateLimiter, has_key, has_token, refilled, charged, full_bucket, look_up, check,
  decision,
}
use markland.RateLimit.Requests.{Request, HasTier, allowed_count}
use markland.RateLimit.Room.{check_self, check-other, HasRoom}
use markland.RateLimit.Bound.{check-All}

-- the tokens that a key's bucket has at a time
abbrev pub credit : ℕ → ℕ × ℕ → Option Bucket → ℕ
credit at default none = default.0 * default.1
credit at default (some b) = min (b.cap * b.per) (b.tokens + (at - b.last_refill) * b.cap)

pub mul-sub : (a b c cap : ℕ) → a ≤ b → b ≤ c → (c - a) * cap ≡ (c - b) * cap + (b - a) * cap
mul-sub a b c cap h k = ap (λ n. n * cap) (omega (arith, h, k)) ∙ Nat.add-mul (c - b) (b - a) cap

charge_budget : (b : Bucket) → allowed_count (decision b) * b.per + (charged b).tokens ≡ b.tokens
unfolding decision charged
charge_budget b = ground arith

module _ (key : String) (tier : Tier) (default : ℕ × ℕ) where
  -- The key's bucket has its tier's capacity and period, and was not refilled after a time.
  abbrev IsOf : ℕ → Bucket → Type 0
  IsOf time b = b.key ≡ key → (b.cap ≡ default.0) × ((b.per ≡ default.1) × (b.last_refill ≤ time))

  abbrev pub AreOf : ℕ → RateLimiter → Type 0
  AreOf time l = (l.defaults tier ≡ default) × All (IsOf time) l.buckets

  IsOf-later : (time later : ℕ) (b : Bucket) → time ≤ later → IsOf time b → IsOf later b
  IsOf-later time later b h k same =
      let found = k same in (found.0, (found.1.0, omega (arith, h, found.1.1)))

  refilled-IsOf : (now : ℕ) (b : Bucket) → IsOf now b → IsOf now (refilled now b)
  unfolding refilled
  refilled-IsOf now b h same = let found = h same in (found.0, (found.1.0, omega arith))

  full-IsOf :
      {t : Tier} (now : ℕ) (l : RateLimiter)
      → l.defaults tier ≡ default
      → t ≡ tier
      → ((l.defaults t).0 ≡ default.0) × (((l.defaults t).1 ≡ default.1) × (now ≤ now))
  full-IsOf now l e same = rw (same, e) (refl, (refl, omega arith))

  charged-IsOf : (now : ℕ) (b : Bucket) → IsOf now b → IsOf now (charged b)
  unfolding charged
  charged-IsOf now b h = elim (Bool-cases (has_token b)) [ inl e ↦ rw e h | inr e ↦ rw e h ]

  pub check-AreOf :
      (r : Request) (time : ℕ) (l : RateLimiter)
      → HasTier key tier r
      → time ≤ r.at
      → AreOf time l
      → AreOf r.at (check r.key r.tier r.at l).1
  unfolding check
  check-AreOf r time l h later k = (
    k.0,
    check-All (IsOf r.at) r.key r.tier r.at l (refilled-IsOf r.at)
        (λ same. full-IsOf r.at l k.0 (h ((eq_iff r.key key).1 same))) (charged-IsOf r.at)
        (All-map (IsOf time) (IsOf r.at) l.buckets (λ b. IsOf-later time r.at b later) k.1),
  )

  -- a bucket of the key gains no more than the time brings
  pub credit-later :
      (time later : ℕ) (l : RateLimiter) (o : Option Bucket)
      → fetchone (has_key key) l.buckets ≡ o
      → time ≤ later
      → AreOf time l
      → credit later default o ≤ credit time default o + (later - time) * default.0
  credit-later time later l none e h k = omega arith
  credit-later time later l (some b) e h k =
      let stored = All-fetchone (IsOf time) (has_key key) l.buckets b k.1 e in
      let own = stored.0 ((eq_iff b.key key).0 stored.1) in
      let gain = mul-sub b.last_refill time later b.cap own.1.1 h in
      let same = ap (λ n. (later - time) * n) own.0 in omega (arith, gain, same)

  elapsed_none : (now : ℕ) (b : Bucket) → b.last_refill ≡ now → now - (charged b).last_refill ≡ 0
  unfolding charged
  elapsed_none now b last = ground (arith, last)

  -- what is granted and what is left do not exceed what was there
  charge_step :
      (now : ℕ) (b : Bucket)
      → b.per ≡ default.1
      → b.last_refill ≡ now
      → allowed_count (decision b) * default.1 + credit now default (some (charged b)) ≤ b.tokens
  charge_step now b per last =
      let c = charged b in
      let spent = charge_budget b in
      let rate = ap (λ n. allowed_count (decision b) * n) per in
      let no_time = ap (λ n. n * c.cap) (elapsed_none now b last) in
      omega (arith, spent, rate, no_time)

  self_step :
      (now : ℕ) (l : RateLimiter) (o : Option Bucket)
      → fetchone (has_key key) l.buckets ≡ o
      → AreOf now l
      → allowed_count (decision (look_up key tier now l o).0) * default.1
          + credit now default (some (charged (look_up key tier now l o).0))
        ≤ credit now default o
  unfolding refilled
  self_step now l none e k =
      let step = charge_step now (full_bucket key now (l.defaults tier)) (ap (λ d. d.1) k.0) refl in
      let full = ap (λ (d : ℕ × ℕ). d.0 * d.1) k.0 in omega (arith, step, full)
  self_step now l (some b) e k =
      let stored = All-fetchone (IsOf now) (has_key key) l.buckets b k.1 e in
      let own = stored.0 ((eq_iff b.key key).0 stored.1) in
      omega (arith, charge_step now (refilled now b) own.1.0 refl)

  self_check :
      (now : ℕ) (l : RateLimiter)
      → AreOf now l
      → allowed_count (check key tier now l).0 * default.1
          + credit now default
              (some (charged (look_up key tier now l (fetchone (has_key key) l.buckets)).0))
        ≤ credit now default (fetchone (has_key key) l.buckets)
  unfolding check
  self_check now l k = self_step now l (fetchone (has_key key) l.buckets) refl k

  check_step :
      (now : ℕ) (l : RateLimiter)
      → AreOf now l
      → allowed_count (check key tier now l).0 * default.1
          + credit now default (fetchone (has_key key) (check key tier now l).1.buckets)
        ≤ credit now default (fetchone (has_key key) l.buckets)
  check_step now l k = rw (check_self key tier now l) (self_check now l k)

  -- the same of the request that a key's caller makes
  pub request_step :
      (r : Request) (l : RateLimiter)
      → HasTier key tier r
      → HasRoom r.key l
      → AreOf r.at l
      → (if r.key == key then allowed_count (check r.key r.tier r.at l).0 else 0) * default.1
          + credit r.at default (fetchone (has_key key) (check r.key r.tier r.at l).1.buckets)
        ≤ credit r.at default (fetchone (has_key key) l.buckets)
  request_step r l tiers room k = elim (Bool-cases (r.key == key)) [
    | inl same ↦
        let step : (t : String)
            → t ≡ key
            → (u : Tier) → u ≡ tier
            → allowed_count (check t u r.at l).0 * default.1
                + credit r.at default (fetchone (has_key key) (check t u r.at l).1.buckets)
              ≤ credit r.at default (fetchone (has_key key) l.buckets) =
          λ t et u eu. rw (et, eu) (check_step r.at l k) in
        simp same (step r.key ((eq_iff r.key key).0 same) r.tier (tiers same))
    | inr ne ↦
        simp ne
          (omega (arith, ap (credit r.at default) (check-other r.key r.tier r.at l key ne room)))
  ]

  pub AreOf-later : (time later : ℕ) (l : RateLimiter) → time ≤ later → AreOf time l → AreOf later l
  AreOf-later time later l h k =
      (k.0, All-map (IsOf time) (IsOf later) l.buckets (λ b. IsOf-later time later b h) k.1)

  pub credit-bound :
      (time : ℕ) (l : RateLimiter) (o : Option Bucket)
      → fetchone (has_key key) l.buckets ≡ o
      → AreOf time l
      → credit time default o ≤ default.0 * default.1
  credit-bound time l none e k = omega arith
  credit-bound time l (some b) e k =
      let stored = All-fetchone (IsOf time) (has_key key) l.buckets b k.1 e in
      let own = stored.0 ((eq_iff b.key key).0 stored.1) in
      omega (arith, ap (λ n. n * b.per) own.0, ap (λ n. default.0 * n) own.1.0)
