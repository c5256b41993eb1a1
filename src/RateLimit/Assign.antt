-- ===== src/RateLimit/Assign.antt =====
-- What assigning, moving and dropping leave in the ordered dictionary of service/rate_limit.py.
use markland.Prelude.{
  ℕ, ◌≤◌, ◌+◌, ◌≡◌, refl, inl, inr, String, true, false, Option, none, some, List, [], ◌∷◌, ◌++◌,
  arith, length, fetchone, delete_where, length-append, length-update_where, fetchone-append,
  fetchone_one, fetchone-delete_where, Option-cases, Bool-cases, All, All-append,
  All-update_where_const, eq_refl, eq_iff, ◌==◌, fetchone-update_where_const,
  fetchone-update_where_const_ne, leb, or_else,
}
use markland.RateLimit.{Bucket, has_key, is_tracked, assign, move_to_end, drop_oldest}

pub fetchone-assign :
    (b : Bucket) (buckets : List Bucket) → fetchone (has_key b.key) (assign b buckets) ≡ some b
unfolding assign
fetchone-assign b buckets = elim (Option-cases (fetchone (has_key b.key) buckets)) [
  | inl e ↦ ground (
    arith,
    e,
    fetchone-append (has_key b.key) buckets (b ∷ []),
    fetchone_one (has_key b.key) b,
    eq_refl b.key,
  )
  | inr (x, e) ↦
      ground (arith, e, fetchone-update_where_const (has_key b.key) b buckets x e (eq_refl b.key))
]

-- different keys name different buckets
pub has_key_ne :
    (key other : String) (b : Bucket)
    → (other == key) ≡ false
    → has_key other b ≡ true
    → has_key key b ≡ false
has_key_ne key other b ne e = rw ((eq_iff b.key other).0 e) ne

other_key_ne :
    (key other : String) (b : Bucket)
    → (other == key) ≡ false
    → has_key key b ≡ true
    → has_key other b ≡ false
other_key_ne key other b ne e = elim (Bool-cases (has_key other b)) [
  | inl hit ↦ ground (arith, ne, has_key_ne key other b ne hit, e)
  | inr miss ↦ miss
]

or_else-none : (o : Option Bucket) → or_else o none ≡ o
or_else-none none = refl
or_else-none (some b) = refl

pub fetchone-assign_ne :
    (key : String) (b : Bucket) (buckets : List Bucket)
    → (b.key == key) ≡ false
    → fetchone (has_key key) (assign b buckets) ≡ fetchone (has_key key) buckets
unfolding assign
fetchone-assign_ne key b buckets ne = elim (Bool-cases (is_tracked buckets b.key)) [
  | inl e ↦ rw e (
      fetchone-update_where_const_ne (has_key key) (has_key b.key) b buckets
        (λ x. has_key_ne key b.key x ne) ne)
  | inr e ↦ rw e (
      ground
        (arith, ne, fetchone-append (has_key key) buckets (b ∷ []), fetchone_one (has_key key) b))
]

pub fetchone-move_to_end_ne :
    (key : String) (b : Bucket) (buckets : List Bucket)
    → (b.key == key) ≡ false
    → fetchone (has_key key) (move_to_end b buckets) ≡ fetchone (has_key key) buckets
fetchone-move_to_end_ne key b buckets ne = ground (
  arith,
  ne,
  fetchone-append (has_key key) (delete_where (has_key b.key) buckets) (b ∷ []),
  fetchone_one (has_key key) b,
  fetchone-delete_where (has_key key) (has_key b.key) buckets (λ x. other_key_ne key b.key x ne),
  or_else-none (fetchone (has_key key) buckets),
)

pub length-drop_oldest :
    (max_keys : ℕ) (buckets : List Bucket) → length (drop_oldest max_keys buckets) ≤ max_keys
unfolding drop_oldest
length-drop_oldest max_keys [] = omega arith
length-drop_oldest max_keys (b ∷ buckets) = ground (arith, length-drop_oldest max_keys buckets)

pub drop_oldest_fits :
    (max_keys : ℕ) (buckets : List Bucket)
    → length buckets ≤ max_keys
    → drop_oldest max_keys buckets ≡ buckets
unfolding drop_oldest
drop_oldest_fits max_keys [] h = refl
drop_oldest_fits max_keys (b ∷ buckets) h = ground (arith, h)

pub All-drop_oldest :
    (P : Bucket → Type 0) (max_keys : ℕ) (buckets : List Bucket)
    → All P buckets
    → All P (drop_oldest max_keys buckets)
unfolding drop_oldest
All-drop_oldest P max_keys [] h = tt
All-drop_oldest P max_keys (b ∷ buckets) h =
    elim (Bool-cases (leb (length (b ∷ buckets)) max_keys)) [
      | inl e ↦ rw e h
      | inr e ↦ rw e (All-drop_oldest P max_keys buckets h.1)
    ]

pub All-assign :
    (P : Bucket → Type 0) (b : Bucket) (buckets : List Bucket)
    → P b
    → All P buckets
    → All P (assign b buckets)
unfolding assign
All-assign P b buckets k h = elim (Bool-cases (is_tracked buckets b.key)) [
  | inl e ↦ rw e (All-update_where_const P (has_key b.key) b buckets k h)
  | inr e ↦ rw e (All-append P buckets (b ∷ []) h (k, tt))
]

pub length-assign :
    (b : Bucket) (buckets : List Bucket) → length (assign b buckets) ≤ length buckets + 1
unfolding assign
length-assign b buckets = elim (Bool-cases (is_tracked buckets b.key)) [
  | inl e ↦ rw e (omega (arith, length-update_where (has_key b.key) (λ _. b) buckets))
  | inr e ↦ rw e (omega (arith, length-append buckets (b ∷ [])))
]

-- an assignment to a key that is there keeps the number of keys
pub length-assign_tracked :
    (b : Bucket) (buckets : List Bucket)
    → is_tracked buckets b.key ≡ true
    → length (assign b buckets) ≡ length buckets
unfolding assign
length-assign_tracked b buckets e = rw e (length-update_where (has_key b.key) (λ _. b) buckets)

-- the bucket that stands last is there
pub is_tracked-last :
    (b : Bucket) (buckets : List Bucket) → is_tracked (buckets ++ b ∷ []) b.key ≡ true
unfolding fetchone
is_tracked-last b [] = rw (eq_refl b.key) refl
is_tracked-last b (x ∷ buckets) = ground (arith, is_tracked-last b buckets)

-- the last bucket is not dropped, unless no key may be tracked
pub is_tracked-drop_oldest :
    (max_keys : ℕ) (b : Bucket) (buckets : List Bucket)
    → 1 ≤ max_keys
    → is_tracked (drop_oldest max_keys (buckets ++ b ∷ [])) b.key ≡ true
unfolding drop_oldest fetchone
is_tracked-drop_oldest max_keys b [] h = ground (arith, h, eq_refl b.key)
is_tracked-drop_oldest max_keys b (x ∷ buckets) h = ground (
  arith,
  is_tracked-last b (x ∷ buckets),
  is_tracked-last b buckets,
  is_tracked-drop_oldest max_keys b buckets h,
)
