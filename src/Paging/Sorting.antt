-- ===== src/Paging/Sorting.antt =====
-- ORDER BY (key, id) DESC gives one order of the rows with different ids, and WHERE clauses keep it.
use markland.Paging.{Cursor, Columns, below, cursor_of, insert_row, sort_rows}
use markland.Paging.Order.{codes_lt, codes_lt_irrefl, codes_lt_trans, codes_lt_total, codes-inj}
use markland.Prelude.{
  Bool, true, false, List, [], ◌∷◌, ◌≡◌, ◌≢◌, refl, inl, inr, arith, select, All, All-map,
  if◌then◌else◌, codes, Bool-cases,
}

module _ {A : Type 0} (cols : Columns A) where
  abbrev pub Below : A → A → Type 0
  Below x y = below cols (cursor_of cols x) y ≡ true

  -- each row is before all that follow
  abbrev pub Sorted : List A → Type 0
  Sorted [] = Unit
  Sorted (x ∷ xs) = All (Below x) xs × Sorted xs

  abbrev pub OtherId : A → A → Type 0
  OtherId x y = cols.id x ≢ cols.id y

  -- the id is the table's key
  abbrev pub Distinct : List A → Type 0
  Distinct [] = Unit
  Distinct (x ∷ xs) = All (OtherId x) xs × Distinct xs

  pub below_irrefl : (x : A) → below cols (cursor_of cols x) x ≡ false
  below_irrefl x = ground (arith, codes_lt_irrefl (codes (cols.id x)))

  pub below_trans :
      (cur : Cursor) (y z : A) → below cols cur y ≡ true → Below y z → below cols cur z ≡ true
  below_trans cur y z h k =
      ground
        (arith, h, k, codes_lt_trans (codes (cols.id z)) (codes (cols.id y)) (codes cur.last_id))

  pub Below-trans : (x y z : A) → Below x y → Below y z → Below x z
  Below-trans x = below_trans (cursor_of cols x)

  pub Below-asym : (x y : A) → Below x y → below cols (cursor_of cols y) x ≡ false
  Below-asym x y h = elim (Bool-cases (below cols (cursor_of cols y) x)) [
    | inl k ↦ ground (arith, Below-trans x y x h k, below_irrefl x)
    | inr k ↦ k
  ]

  pub Below-total : (x y : A) → OtherId x y → below cols (cursor_of cols x) y ≡ false → Below y x
  Below-total x y other h = elim (Bool-cases (below cols (cursor_of cols y) x)) [
    | inl k ↦ k
    | inr k ↦
        let a : codes_lt (codes (cols.id y)) (codes (cols.id x)) ≡ false = ground (arith, h, k) in
        let b : codes_lt (codes (cols.id x)) (codes (cols.id y)) ≡ false = ground (arith, h, k) in
        let same : cols.id x ≡ cols.id y =
          codes-inj (cols.id x) (cols.id y)
            (codes_lt_total (codes (cols.id x)) (codes (cols.id y)) b a) in
        elim (other same) [ ]
  ]

  pub All-insert_row :
      (P : A → Type 0) (x : A) (ys : List A) → P x → All P ys → All P (insert_row cols x ys)
  unfolding insert_row
  All-insert_row P x [] h k = (h, k)
  All-insert_row P x (y ∷ ys) h k = elim (Bool-cases (below cols (cursor_of cols x) y)) [
    | inl e ↦ rw e (h, k)
    | inr e ↦ rw e (k.0, All-insert_row P x ys h k.1)
  ]

  pub All-sort_rows : (P : A → Type 0) (xs : List A) → All P xs → All P (sort_rows cols xs)
  unfolding sort_rows
  All-sort_rows P [] h = tt
  All-sort_rows P (x ∷ xs) h = All-insert_row P x (sort_rows cols xs) h.0 (All-sort_rows P xs h.1)

  insert_row-Sorted :
      (x : A) (ys : List A) → All (OtherId x) ys → Sorted ys → Sorted (insert_row cols x ys)
  unfolding insert_row
  insert_row-Sorted x [] other h = (tt, tt)
  insert_row-Sorted x (y ∷ ys) other h = elim (Bool-cases (below cols (cursor_of cols x) y)) [
    | inl e ↦ rw e ((e, All-map (Below y) (Below x) ys (λ z k. Below-trans x y z e k) h.0), h)
    | inr e ↦ rw e (
      All-insert_row (Below y) x ys (Below-total x y other.0 e) h.0,
      insert_row-Sorted x ys other.1 h.1,
    )
  ]

  pub sort_rows-Sorted : (xs : List A) → Distinct xs → Sorted (sort_rows cols xs)
  unfolding sort_rows
  sort_rows-Sorted [] h = tt
  sort_rows-Sorted (x ∷ xs) h =
      insert_row-Sorted x (sort_rows cols xs) (All-sort_rows (OtherId x) xs h.0)
        (sort_rows-Sorted xs h.1)

  All-select_of : (P : A → Type 0) (q : A → Bool) (xs : List A) → All P xs → All P (select q xs)
  unfolding select
  All-select_of P q [] h = tt
  All-select_of P q (x ∷ xs) h = elim (Bool-cases (q x)) [
    | inl e ↦ rw e (h.0, All-select_of P q xs h.1)
    | inr e ↦ rw e (All-select_of P q xs h.1)
  ]

  pub Sorted-select : (q : A → Bool) (xs : List A) → Sorted xs → Sorted (select q xs)
  unfolding select
  Sorted-select q [] h = tt
  Sorted-select q (x ∷ xs) h = elim (Bool-cases (q x)) [
    | inl e ↦ rw e (All-select_of (Below x) q xs h.0, Sorted-select q xs h.1)
    | inr e ↦ rw e (Sorted-select q xs h.1)
  ]

  pub Distinct-select : (q : A → Bool) (xs : List A) → Distinct xs → Distinct (select q xs)
  unfolding select
  Distinct-select q [] h = tt
  Distinct-select q (x ∷ xs) h = elim (Bool-cases (q x)) [
    | inl e ↦ rw e (All-select_of (OtherId x) q xs h.0, Distinct-select q xs h.1)
    | inr e ↦ rw e (Distinct-select q xs h.1)
  ]

  insert_row-top : (x : A) (ys : List A) → All (Below x) ys → insert_row cols x ys ≡ x ∷ ys
  unfolding insert_row
  insert_row-top x [] h = refl
  insert_row-top x (y ∷ ys) h = rw h.0 refl

  select-insert_row :
      (q : A → Bool) (x : A) (ys : List A)
      → Sorted ys
      → select q (insert_row cols x ys)
        ≡ (if q x then insert_row cols x (select q ys) else select q ys)
  unfolding insert_row select
  select-insert_row q x [] h = ground arith
  select-insert_row q x (y ∷ ys) h = elim (Bool-cases (below cols (cursor_of cols x) y)) [
    | inl e ↦
        let after : All (Below x) (y ∷ ys) =
          (e, All-map (Below y) (Below x) ys (λ z k. Below-trans x y z e k) h.0) in
        let top = insert_row-top x (select q (y ∷ ys)) (All-select_of (Below x) q (y ∷ ys) after) in
        rw (e, top) refl
    | inr e ↦ let ih = select-insert_row q x ys h.1 in ground (arith, e, ih)
  ]

  -- the WHERE clause and the ORDER BY commute
  pub select-sort_rows :
      (q : A → Bool) (xs : List A)
      → Distinct xs
      → select q (sort_rows cols xs) ≡ sort_rows cols (select q xs)
  unfolding sort_rows select
  select-sort_rows q [] h = refl
  select-sort_rows q (x ∷ xs) h =
      let ih = select-sort_rows q xs h.1 in
      let step = select-insert_row q x (sort_rows cols xs) (sort_rows-Sorted xs h.1) in
      elim (Bool-cases (q x)) [
        | inl e ↦ ground (arith, e, ih, step)
        | inr e ↦ ground (arith, e, ih, step)
      ]
