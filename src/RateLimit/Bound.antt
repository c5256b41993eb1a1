-- ===== src/RateLimit/Bound.antt =====
-- The rate limiter's memory and its buckets stay within their bounds.
use markland.Prelude.{
  ℕ, zero, suc, sym, subst, ◌≤◌, ◌*◌, max, ◌≡◌, refl, inl, inr, String, true, Option, none, some,
  List, [], ◌∷◌, arith, length, fetchone, delete_where, length-append, length-delete_found, All,
  All-append, All-delete_where, All-fetchone, ◌⊎◌, eq_iff, fetchone_sound,
}
use markland.RateLimit.{
  Tier, Bucket, RateLimiter, has_key, assign, move_to_end, drop_oldest, refilled, charged,
  full_bucket, look_up, check, size, is_tracked,
}
use markland.RateLimit.Requests.{Request, after}
use markland.RateLimit.Assign.{
  length-drop_oldest, length-assign, length-assign_tracked, All-assign, All-drop_oldest,
  is_tracked-drop_oldest, is_tracked-last,
}

-- No bucket holds more than its capacity.
abbrev pub IsWithinCapacity : Bucket → Type 0
IsWithinCapacity b = b.tokens ≤ b.cap * b.per

module _ (P : Bucket → Type 0) (key : String) (tier : Tier) (now : ℕ) (l : RateLimiter)
    (keep : (b : Bucket) → P b → P (refilled now b))
    (new : P (full_bucket key now (l.defaults tier)))
    (charge : (b : Bucket) → P b → P (charged b)) where
  look_up-All :
      (o : Option Bucket)
      → fetchone (has_key key) l.buckets ≡ o
      → All P l.buckets
      → P (look_up key tier now l o).0 × All P (look_up key tier now l o).1
  look_up-All none e h =
      let b = full_bucket key now (l.defaults tier) in
      (new, All-drop_oldest P l.max_keys (assign b l.buckets) (All-assign P b l.buckets new h))
  look_up-All (some b) e h =
      let k = (All-fetchone P (has_key key) l.buckets b h e).0 in
      let kept = delete_where (has_key b.key) l.buckets in
      (
        keep b k,
        All-append P kept (b ∷ []) (All-delete_where P (has_key b.key) l.buckets h) (k, tt),
      )

  -- A property of the buckets that refilling, charging and a new bucket have is one of all buckets.
  pub check-All : All P l.buckets → All P (check key tier now l).1.buckets
  unfolding check
  check-All h =
      let o = fetchone (has_key key) l.buckets in
      let found = look_up key tier now l o in
      let k = look_up-All o refl h in
      All-assign P (charged found.0) found.1 (charge found.0 k.0) k.1

charged-IsWithinCapacity : (b : Bucket) → IsWithinCapacity b → IsWithinCapacity (charged b)
unfolding charged
charged-IsWithinCapacity b h = ground (arith, h)

refilled-IsWithinCapacity : (now : ℕ) (b : Bucket) → IsWithinCapacity (refilled now b)
unfolding refilled
refilled-IsWithinCapacity now b = omega arith

pub charged-key : (b : Bucket) → (charged b).key ≡ b.key
unfolding charged
charged-key b = ground arith

Nat-cases : (n : ℕ) → (n ≡ 0) ⊎ (1 ≤ n)
Nat-cases zero = inl refl
Nat-cases (suc n) = inr (omega arith)

new_tracked :
    (key : String) (now : ℕ) (l : RateLimiter) (tier : Tier)
    → fetchone (has_key key) l.buckets ≡ none
    → 1 ≤ l.max_keys
    → is_tracked
        (drop_oldest l.max_keys (assign (full_bucket key now (l.defaults tier)) l.buckets))
        (charged (full_bucket key now (l.defaults tier))).key
      ≡ true
unfolding assign
new_tracked key now l tier e positive =
    rw (charged-key (full_bucket key now (l.defaults tier)), e)
      (is_tracked-drop_oldest l.max_keys (full_bucket key now (l.defaults tier)) l.buckets positive)

-- a bucket that is found under a key is found under its own
found_at :
    (key : String) (l : RateLimiter) (b : Bucket)
    → fetchone (has_key key) l.buckets ≡ some b
    → fetchone (has_key b.key) l.buckets ≡ some b
found_at key l b e =
    subst (λ k. fetchone (has_key k) l.buckets ≡ some b)
      (sym ((eq_iff b.key key).0 (fetchone_sound (has_key key) l.buckets b e))) e

refilled_tracked :
    (now : ℕ) (b : Bucket) (l : RateLimiter)
    → is_tracked (move_to_end b l.buckets) (refilled now b).key ≡ true
unfolding refilled
refilled_tracked now b l = is_tracked-last b (delete_where (has_key b.key) l.buckets)

-- a key that is tracked adds none
pub refilled-length :
    (key : String) (now : ℕ) (l : RateLimiter) (b : Bucket)
    → fetchone (has_key key) l.buckets ≡ some b
    → length (assign (charged (refilled now b)) (move_to_end b l.buckets)) ≤ size l
refilled-length key now l b e =
    let kept = delete_where (has_key b.key) l.buckets in
    omega (
      arith,
      length-append kept (b ∷ []),
      length-delete_found (has_key b.key) l.buckets b (found_at key l b e),
      length-assign_tracked (charged (refilled now b)) (move_to_end b l.buckets)
          (rw (charged-key (refilled now b)) (refilled_tracked now b l)),
    )

-- where the key's bucket stands last, there is one already
look_up-length :
    (key : String) (tier : Tier) (now : ℕ) (l : RateLimiter) (o : Option Bucket)
    → fetchone (has_key key) l.buckets ≡ o
    → size l ≤ max 1 l.max_keys
    → length (assign (charged (look_up key tier now l o).0) (look_up key tier now l o).1)
      ≤ max 1 l.max_keys
look_up-length key tier now l none e h =
    let b = full_bucket key now (l.defaults tier) in
    let dropped = drop_oldest l.max_keys (assign b l.buckets) in
    let short = length-drop_oldest l.max_keys (assign b l.buckets) in
    elim (Nat-cases l.max_keys) [
      | inl none_allowed ↦ omega (arith, none_allowed, short, length-assign (charged b) dropped)
      | inr positive ↦ omega (
        arith,
        short,
        length-assign_tracked (charged b) dropped (new_tracked key now l tier e positive),
      )
    ]
look_up-length key tier now l (some b) e h = omega (arith, h, refilled-length key now l b e)

check-size :
    (key : String) (tier : Tier) (now : ℕ) (l : RateLimiter)
    → size l ≤ max 1 l.max_keys
    → size (check key tier now l).1 ≤ max 1 l.max_keys
unfolding check
check-size key tier now l h =
    look_up-length key tier now l (fetchone (has_key key) l.buckets) refl h

abbrev pub IsWithinBounds : RateLimiter → Type 0
IsWithinBounds l = (size l ≤ max 1 l.max_keys) × All IsWithinCapacity l.buckets

-- Whatever requests are checked, a limiter that keeps its bounds keeps them: it tracks no more keys than max_keys, or one
-- where max_keys is 0, and no bucket holds more tokens than its capacity.
pub after-bounds :
    (requests : List Request) (l : RateLimiter)
    → IsWithinBounds l
    → IsWithinBounds (after requests l) × ((after requests l).max_keys ≡ l.max_keys)
unfolding check
after-bounds [] l h = (h, refl)
after-bounds (r ∷ requests) l h = after-bounds requests (check r.key r.tier r.at l).1 (
  check-size r.key r.tier r.at l h.0,
  check-All IsWithinCapacity r.key r.tier r.at l (λ b k. refilled-IsWithinCapacity r.at b)
      (omega arith) charged-IsWithinCapacity h.1,
)
