-- ===== src/Paging/Rows.antt =====
-- The rows of a page and those below its last row.
use markland.Paging.{Columns, below, cursor_of, last_row}
use markland.Paging.Sorting.{Below, Below-asym, below_irrefl, Sorted}
use markland.Prelude.{
  ℕ, zero, suc, ◌<◌, Bool, true, false, some, List, [], ◌∷◌, ◌++◌, ◌≡◌, refl, ap, subst, inl, inr,
  arith, ◌&&◌, select, take, drop, length, ltb, All, Bool-cases,
}

module _ {A : Type 0} where
  -- two WHERE clauses
  pub select-select :
      (q r : A → Bool) (xs : List A)
      → ((a : A) → q a ≡ true → r a ≡ true)
      → select q (select r xs) ≡ select q xs
  unfolding select
  select-select q r [] h = refl
  select-select q r (x ∷ xs) h = elim (Bool-cases (q x)) [
    | inl e ↦ ground (arith, e, h x e, select-select q r xs h)
    | inr e ↦
        let ih = select-select q r xs h in
        elim (Bool-cases (r x)) [
          | inl k ↦ ground (arith, e, k, ih)
          | inr k ↦ ground (arith, e, k, ih)
        ]
  ]

  pub select_and :
      (q r : A → Bool) (xs : List A) → select (λ a. q a && r a) xs ≡ select r (select q xs)
  unfolding select
  select_and q r [] = refl
  select_and q r (x ∷ xs) =
      let ih = select_and q r xs in
      elim (Bool-cases (q x)) [ inl e ↦ ground (arith, e, ih) | inr e ↦ ground (arith, e, ih) ]

  pub select-All : (q : A → Bool) (xs : List A) → All (λ a. q a ≡ true) xs → select q xs ≡ xs
  unfolding select
  select-All q [] h = refl
  select-All q (x ∷ xs) h = rw (h.0, select-All q xs h.1) refl

  pub take-take : (n : ℕ) (xs : List A) → take n (take (suc n) xs) ≡ take n xs
  take-take zero xs = refl
  take-take (suc n) [] = refl
  take-take (suc n) (x ∷ xs) = ap (λ ys. x ∷ ys) (take-take n xs)

  -- LIMIT n + 1 tells whether there are more than n rows
  pub ltb-length-take : (n : ℕ) (xs : List A) → ltb n (length (take (suc n) xs)) ≡ ltb n (length xs)
  ltb-length-take zero [] = refl
  ltb-length-take zero (x ∷ xs) = ground arith
  ltb-length-take (suc n) [] = refl
  ltb-length-take (suc n) (x ∷ xs) = ground (arith, ltb-length-take n xs)

  pub take-all : (n : ℕ) (xs : List A) → ltb n (length xs) ≡ false → take n xs ≡ xs
  take-all zero [] h = refl
  take-all zero (x ∷ xs) h = ground (arith, h)
  take-all (suc n) [] h = refl
  take-all (suc n) (x ∷ xs) h = ap (λ ys. x ∷ ys) (take-all n xs (ground (arith, h)))

  pub take-drop : (n : ℕ) (xs : List A) → take n xs ++ drop n xs ≡ xs
  take-drop zero xs = refl
  take-drop (suc n) [] = refl
  take-drop (suc n) (x ∷ xs) = ap (λ ys. x ∷ ys) (take-drop n xs)

module _ {A : Type 0} (cols : Columns A) where
  pub last_row-All :
      (P : A → Type 0) (n : ℕ) (xs : List A) (c : A)
      → All P xs
      → last_row cols (take n xs) ≡ some c
      → P c
  last_row-All P zero xs c h e = ground arith
  last_row-All P (suc n) [] c h e = ground arith
  last_row-All P (suc zero) (x ∷ xs) c h e =
      let same : x ≡ c = ground (arith, e) in subst P same h.0
  last_row-All P (suc (suc n)) (x ∷ []) c h e =
      let same : x ≡ c = ground (arith, e) in subst P same h.0
  last_row-All P (suc (suc n)) (x ∷ y ∷ xs) c h e = last_row-All P (suc n) (y ∷ xs) c h.1 e

  pub below_first :
      (x : A) (xs : List A)
      → All (Below cols x) xs
      → select (below cols (cursor_of cols x)) (x ∷ xs) ≡ xs
  unfolding select
  below_first x xs h = rw (below_irrefl cols x) (select-All (below cols (cursor_of cols x)) xs h)

  -- The rows below the last of the first `n` are the others.
  pub below_last :
      (n : ℕ) (xs : List A) (c : A)
      → Sorted cols xs
      → last_row cols (take n xs) ≡ some c
      → select (below cols (cursor_of cols c)) xs ≡ drop n xs
  unfolding select
  below_last zero xs c h e = ground arith
  below_last (suc n) [] c h e = refl
  below_last (suc zero) (x ∷ xs) c h e =
      let same : x ≡ c = ground (arith, e) in
      subst (λ d. select (below cols (cursor_of cols d)) (x ∷ xs) ≡ xs) same (below_first x xs h.0)
  below_last (suc (suc n)) (x ∷ []) c h e =
      let same : x ≡ c = ground (arith, e) in
      subst (λ d. select (below cols (cursor_of cols d)) (x ∷ []) ≡ []) same (below_first x [] tt)
  below_last (suc (suc n)) (x ∷ y ∷ xs) c h e =
      let ih = below_last (suc n) (y ∷ xs) c h.1 e in
      let hit = last_row-All (Below cols x) (suc n) (y ∷ xs) c h.0 e in
      rw (Below-asym cols x c hit) ih

  pub last_row-some :
      (n : ℕ) (xs : List A) → n < length xs → (c : A) × (last_row cols (take (suc n) xs) ≡ some c)
  last_row-some n [] h = ground (arith, h)
  last_row-some zero (x ∷ xs) h = (x, refl)
  last_row-some (suc n) (x ∷ []) h = (x, refl)
  last_row-some (suc n) (x ∷ y ∷ xs) h = last_row-some n (y ∷ xs) (omega (arith, h))
