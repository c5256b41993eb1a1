-- ===== src/RateLimit/Room.antt =====
-- While the keys fit, no bucket is dropped: what a check leaves under each key.
use markland.Prelude.{
  ℕ, ◌≤◌, ◌+◌, ◌≡◌, refl, sym, ap, subst, inl, inr, String, Bool, true, false, Option, none, some,
  List, [], ◌∷◌, ◌==◌, ◌||◌, arith, length, fetchone, Bool-cases, eq_iff, if◌then◌else◌, is_some,
  ◌∙◌, ◌⊎◌, fetchone_sound,
}
use markland.RateLimit.{
  Tier, Bucket, RateLimiter, has_key, assign, drop_oldest, refilled, charged, full_bucket, look_up,
  check, size, is_tracked,
}
use markland.RateLimit.Assign.{
  fetchone-assign, fetchone-assign_ne, fetchone-move_to_end_ne, drop_oldest_fits, length-assign,
  length-assign_tracked,
}
use markland.RateLimit.Requests.{Request, new_keys, Fits}
use markland.RateLimit.Bound.{charged-key, refilled-length}

new_keys-ext :
    (seen known : String → Bool) (requests : List Request)
    → ((k : String) → seen k ≡ known k)
    → new_keys seen requests ≡ new_keys known requests
new_keys-ext seen known [] h = refl
new_keys-ext seen known (r ∷ requests) h = ground (
  arith,
  h r.key,
  new_keys-ext seen known requests h,
  new_keys-ext (λ k. r.key == k || seen k) (λ k. r.key == k || known k) requests
      (λ k. rw (h k) refl),
)

refilled-key : (now : ℕ) (b : Bucket) → (refilled now b).key ≡ b.key
unfolding refilled
refilled-key now b = refl

-- Where the key is tracked already or there is room for one more, no bucket is dropped.
abbrev pub HasRoom : String → RateLimiter → Type 0
HasRoom key l = (is_tracked l.buckets key ≡ true) ⊎ (size l + 1 ≤ l.max_keys)

module _ (key : String) (tier : Tier) (now : ℕ) (l : RateLimiter) where
  found_key : {b : Bucket} → fetchone (has_key key) l.buckets ≡ some b → b.key ≡ key
  found_key {b} e = (eq_iff b.key key).0 (fetchone_sound (has_key key) l.buckets b e)

  look_up-key :
      (o : Option Bucket)
      → fetchone (has_key key) l.buckets ≡ o
      → (charged (look_up key tier now l o).0).key ≡ key
  look_up-key none e = charged-key (full_bucket key now (l.defaults tier))
  look_up-key (some b) e = charged-key (refilled now b) ∙ refilled-key now b ∙ found_key e

  -- what is kept under the key that is checked
  pub check_self :
      fetchone (has_key key) (check key tier now l).1.buckets
      ≡ some (charged (look_up key tier now l (fetchone (has_key key) l.buckets)).0)
  unfolding check
  check_self =
      let o = fetchone (has_key key) l.buckets in
      let found = look_up key tier now l o in
      subst (λ k. fetchone (has_key k) (assign (charged found.0) found.1) ≡ some (charged found.0))
        (look_up-key o refl) (fetchone-assign (charged found.0) found.1)

  -- there is room for a new key
  new_fits :
      fetchone (has_key key) l.buckets ≡ none
      → HasRoom key l
      → length (assign (full_bucket key now (l.defaults tier)) l.buckets) ≤ l.max_keys
  new_fits e (inl tracked) = ground (arith, e, tracked)
  new_fits e (inr room) =
      omega (arith, room, length-assign (full_bucket key now (l.defaults tier)) l.buckets)

  look_up-other :
      (other : String) (o : Option Bucket)
      → fetchone (has_key key) l.buckets ≡ o
      → (key == other) ≡ false
      → HasRoom key l
      → fetchone (has_key other) (look_up key tier now l o).1 ≡ fetchone (has_key other) l.buckets
  look_up-other other none e ne room =
      let b = full_bucket key now (l.defaults tier) in
      ap (fetchone (has_key other))
        (drop_oldest_fits l.max_keys (assign b l.buckets) (new_fits e room))
      ∙ fetchone-assign_ne other b l.buckets ne
  look_up-other other (some b) e ne room =
      fetchone-move_to_end_ne other b l.buckets (rw (found_key e) ne)

  pub check-other :
      (other : String)
      → (key == other) ≡ false
      → HasRoom key l
      → fetchone (has_key other) (check key tier now l).1.buckets
        ≡ fetchone (has_key other) l.buckets
  unfolding check
  check-other other ne room =
      let o = fetchone (has_key key) l.buckets in
      let found = look_up key tier now l o in
      fetchone-assign_ne other (charged found.0) found.1 (rw (look_up-key o refl) ne)
      ∙ look_up-other other o refl ne room

  new_tracked :
      fetchone (has_key key) l.buckets ≡ none
      → HasRoom key l
      → is_tracked
          (drop_oldest l.max_keys (assign (full_bucket key now (l.defaults tier)) l.buckets))
          (charged (full_bucket key now (l.defaults tier))).key
        ≡ true
  new_tracked e room =
      let b = full_bucket key now (l.defaults tier) in
      rw
        (
          charged-key b,
          drop_oldest_fits l.max_keys (assign b l.buckets) (new_fits e room),
          fetchone-assign b l.buckets,
        )
        refl

  -- A key that is not tracked is one more at most.
  look_up-size :
      (o : Option Bucket)
      → fetchone (has_key key) l.buckets ≡ o
      → HasRoom key l
      → length (assign (charged (look_up key tier now l o).0) (look_up key tier now l o).1)
        ≤ size l + (if is_some o then 0 else 1)
  look_up-size none e room =
      let b = full_bucket key now (l.defaults tier) in
      let kept = assign b l.buckets in
      let dropped = drop_oldest l.max_keys kept in
      omega (
        arith,
        ap length (drop_oldest_fits l.max_keys kept (new_fits e room)),
        length-assign b l.buckets,
        length-assign_tracked (charged b) dropped (new_tracked e room),
      )
  look_up-size (some b) e room = omega (arith, refilled-length key now l b e)

  check-size :
      HasRoom key l
      → size (check key tier now l).1 ≤ size l + (if is_tracked l.buckets key then 0 else 1)
  unfolding check
  check-size room = look_up-size (fetchone (has_key key) l.buckets) refl room

  -- afterwards, the key is tracked and the others are as before
  check-is_tracked :
      HasRoom key l
      → (k : String)
      → is_tracked (check key tier now l).1.buckets k ≡ (key == k || is_tracked l.buckets k)
  check-is_tracked room k = elim (Bool-cases (key == k)) [
    | inl same ↦ rw same (
        subst (λ j. is_tracked (check key tier now l).1.buckets j ≡ true) ((eq_iff key k).0 same)
          (rw check_self refl))
    | inr ne ↦ rw (ne, check-other k ne room) refl
  ]

pub room_of :
    (r : Request) (requests : List Request) (l : RateLimiter)
    → Fits l (r ∷ requests)
    → HasRoom r.key l
room_of r requests l h = elim (Bool-cases (is_tracked l.buckets r.key)) [
  | inl tracked ↦ inl tracked
  | inr new ↦ inr (ground (arith, new, h))
]

check-max_keys :
    (key : String) (tier : Tier) (now : ℕ) (l : RateLimiter)
    → (check key tier now l).1.max_keys ≡ l.max_keys
unfolding check
check-max_keys key tier now l = refl

tracked_absorbs :
    (key : String) (buckets : List Bucket)
    → is_tracked buckets key ≡ true
    → (k : String) → (key == k || is_tracked buckets k) ≡ is_tracked buckets k
tracked_absorbs key buckets tracked k = elim (Bool-cases (key == k)) [
  | inl same ↦
      rw same (sym (subst (λ j. is_tracked buckets j ≡ true) ((eq_iff key k).0 same) tracked))
  | inr ne ↦ rw ne refl
]

pub check-Fits :
    (r : Request) (requests : List Request) (l : RateLimiter)
    → Fits l (r ∷ requests)
    → Fits (check r.key r.tier r.at l).1 requests
check-Fits r requests l h =
    let next = (check r.key r.tier r.at l).1 in
    let room = room_of r requests l h in
    let same = check-is_tracked r.key r.tier r.at l room in
    let grown = check-size r.key r.tier r.at l room in
    let bound = check-max_keys r.key r.tier r.at l in
    elim (Bool-cases (is_tracked l.buckets r.key)) [
      | inl tracked ↦
          let seen = λ (k : String). same k ∙ tracked_absorbs r.key l.buckets tracked k in
          ground (
            arith,
            tracked,
            h,
            grown,
            bound,
            new_keys-ext (is_tracked next.buckets) (is_tracked l.buckets) requests seen,
          )
      | inr new ↦ ground (
        arith,
        new,
        h,
        grown,
        bound,
        new_keys-ext (is_tracked next.buckets) (λ k. r.key == k || is_tracked l.buckets k) requests
            same,
      )
    ]
