-- ===== src/Prelude/Tables.antt =====
-- An SQL table as the list of its rows: SELECT, UPDATE and DELETE with a WHERE clause.
use Prim.Native.Nat.{ℕ, zero, suc, ◌+◌, ◌-◌, ◌≤◌}
use mathlib.Core.Path.{◌≡◌, refl}
use mathlib.Core.Bool.{Bool, true, false}
use mathlib.Core.Option
use mathlib.Core.Option.{Option, none, some}
use mathlib.Core.List.{List, [], ◌∷◌, ◌++◌}
use native.Mathlib.Omega.{arith}
use mathlib.Core.Logic.{inl, inr}
use package.markland.Prelude.Tests.{leb, if◌then◌else◌, Option-cases, Bool-cases}

module _ {ℓ} {A : Type ℓ} where
  abbrev pub length : List A → ℕ
  length [] = 0
  length (x ∷ xs) = suc (length xs)

  abbrev pub take : ℕ → List A → List A
  take zero xs = []
  take (suc n) [] = []
  take (suc n) (x ∷ xs) = x ∷ take n xs

  abbrev pub drop : ℕ → List A → List A
  drop zero xs = xs
  drop (suc n) [] = []
  drop (suc n) (x ∷ xs) = drop n xs

  pub length-append : (xs ys : List A) → length (xs ++ ys) ≡ length xs + length ys
  length-append [] ys = omega arith
  length-append (x ∷ xs) ys = omega (arith, length-append xs ys)

  pub length-drop : (n : ℕ) (xs : List A) → length (drop n xs) ≡ length xs - n
  length-drop zero xs = omega arith
  length-drop (suc n) [] = omega arith
  length-drop (suc n) (x ∷ xs) = omega (arith, length-drop n xs)

  -- `SELECT … WHERE p`, `.fetchone()`
  unfoldable pub fetchone : (A → Bool) → List A → Option A
  fetchone p [] = none
  fetchone p (x ∷ xs) = if p x then some x else fetchone p xs

  -- `SELECT … WHERE p`, `.fetchall()`
  unfoldable pub select : (A → Bool) → List A → List A
  select p [] = []
  select p (x ∷ xs) = let rest = select p xs in if p x then x ∷ rest else rest

  -- `UPDATE … SET f WHERE p`
  unfoldable pub update_where : (A → Bool) → (A → A) → List A → List A
  update_where p f [] = []
  update_where p f (x ∷ xs) = (if p x then f x else x) ∷ update_where p f xs

  -- `DELETE … WHERE p`
  unfoldable pub delete_where : (A → Bool) → List A → List A
  delete_where p [] = []
  delete_where p (x ∷ xs) = let rest = delete_where p xs in if p x then rest else x ∷ rest

  -- `INSERT … ON CONFLICT(p) DO UPDATE SET f`
  unfoldable pub upsert_where : (A → Bool) → (A → A) → A → List A → List A
  unfolding fetchone update_where
  upsert_where p f row xs = elim (fetchone p xs) [
    | none ↦ xs ++ row ∷ []
    | some found ↦ update_where p f xs
  ]

  insert_desc : (A → ℕ) → A → List A → List A
  insert_desc key x [] = x ∷ []
  insert_desc key x (y ∷ ys) = if leb (key y) (key x) then x ∷ y ∷ ys else y ∷ insert_desc key x ys

  -- `ORDER BY key DESC`; rows with one key stay in their order
  unfoldable pub order_desc : (A → ℕ) → List A → List A
  unfolding insert_desc
  order_desc key [] = []
  order_desc key (x ∷ xs) = insert_desc key x (order_desc key xs)

  insert_asc : (A → ℕ) → A → List A → List A
  insert_asc key x [] = x ∷ []
  insert_asc key x (y ∷ ys) = if leb (key x) (key y) then x ∷ y ∷ ys else y ∷ insert_asc key x ys

  -- `ORDER BY key ASC`
  unfoldable pub order_asc : (A → ℕ) → List A → List A
  unfolding insert_asc
  order_asc key [] = []
  order_asc key (x ∷ xs) = insert_asc key x (order_asc key xs)

  -- `LIMIT 1`
  abbrev pub first : List A → Option A
  first [] = none
  first (x ∷ xs) = some x

  -- The first of two answers that is there.
  abbrev pub or_else : Option A → Option A → Option A
  or_else none o = o
  or_else (some a) o = some a

  pub fetchone-append :
      (p : A → Bool) (xs ys : List A)
      → fetchone p (xs ++ ys) ≡ or_else (fetchone p xs) (fetchone p ys)
  unfolding fetchone
  fetchone-append p [] ys = refl
  fetchone-append p (x ∷ xs) ys = ground (arith, fetchone-append p xs ys)

  pub select-append :
      (p : A → Bool) (xs ys : List A) → select p (xs ++ ys) ≡ select p xs ++ select p ys
  unfolding select
  select-append p [] ys = refl
  select-append p (x ∷ xs) ys = ground (arith, select-append p xs ys)

  -- A row that is found meets the WHERE clause.
  pub fetchone_sound : (p : A → Bool) (xs : List A) (x : A) → fetchone p xs ≡ some x → p x ≡ true
  unfolding fetchone
  fetchone_sound p [] x h = ground arith
  fetchone_sound p (y ∷ xs) x h = ground (arith, fetchone_sound p xs x)

  pub fetchone-update_where :
      (p q : A → Bool) (f : A → A) (xs : List A)
      → ((x : A) → p (f x) ≡ p x)
      → fetchone p (update_where q f xs) ≡ Option.map (λ x. if q x then f x else x) (fetchone p xs)
  unfolding fetchone update_where
  fetchone-update_where p q f [] keep = refl
  fetchone-update_where p q f (x ∷ xs) keep =
      ground (arith, keep x, fetchone-update_where p q f xs keep)

  pub fetchone-delete_where :
      (p q : A → Bool) (xs : List A)
      → ((x : A) → p x ≡ true → q x ≡ false)
      → fetchone p (delete_where q xs) ≡ fetchone p xs
  unfolding fetchone delete_where
  fetchone-delete_where p q [] other = refl
  fetchone-delete_where p q (x ∷ xs) other =
      ground (arith, other x, fetchone-delete_where p q xs other)

  -- The row that is found is still found, if it is not deleted.
  pub fetchone-delete_where_kept :
      (p q : A → Bool) (xs : List A) (x : A)
      → fetchone p xs ≡ some x
      → q x ≡ false
      → fetchone p (delete_where q xs) ≡ some x
  unfolding fetchone delete_where
  fetchone-delete_where_kept p q [] x found kept = found
  fetchone-delete_where_kept p q (y ∷ xs) x found kept =
      ground (arith, fetchone-delete_where_kept p q xs x)

  pub select-delete_where_same : (p : A → Bool) (xs : List A) → select p (delete_where p xs) ≡ []
  unfolding select delete_where
  select-delete_where_same p [] = refl
  select-delete_where_same p (x ∷ xs) = ground (arith, select-delete_where_same p xs)

  pub fetchone-delete_where_same :
      (p q : A → Bool) (xs : List A)
      → ((x : A) → p x ≡ true → q x ≡ true)
      → fetchone p (delete_where q xs) ≡ none
  unfolding fetchone delete_where
  fetchone-delete_where_same p q [] same = refl
  fetchone-delete_where_same p q (x ∷ xs) same =
      ground (arith, same x, fetchone-delete_where_same p q xs same)

  -- a row that one query finds is one that the other finds, or behind one
  pub fetchone_finds :
      (p q : A → Bool) (rows : List A) (x : A)
      → fetchone p rows ≡ some x
      → q x ≡ true
      → (y : A) × (fetchone q rows ≡ some y)
  unfolding fetchone
  fetchone_finds p q [] x h k = absurd (ground arith)
  fetchone_finds p q (y ∷ rows) x h k = elim (Bool-cases (q y)) [
    | inl hit ↦ rw hit (y, refl)
    | inr miss ↦ elim (Bool-cases (p y)) [
      | inl e ↦ absurd (ground (arith, e, h, miss, k))
      | inr e ↦ rw miss (fetchone_finds p q rows x (rw e at h) k)
    ]
  ]

  pub length-delete_where :
      (p : A → Bool) (rows : List A) → length (delete_where p rows) ≤ length rows
  unfolding delete_where
  length-delete_where p [] = omega arith
  length-delete_where p (x ∷ rows) = ground (arith, length-delete_where p rows)

  -- a row that is found makes room for itself
  pub length-delete_found :
      (p : A → Bool) (rows : List A) (x : A)
      → fetchone p rows ≡ some x
      → length (delete_where p rows) + 1 ≤ length rows
  unfolding fetchone delete_where
  length-delete_found p [] x h = ground arith
  length-delete_found p (y ∷ rows) x h =
      ground (arith, h, length-delete_found p rows x, length-delete_where p rows)

  pub length-update_where :
      (p : A → Bool) (f : A → A) (rows : List A) → length (update_where p f rows) ≡ length rows
  unfolding update_where
  length-update_where p f [] = refl
  length-update_where p f (x ∷ rows) = omega (arith, length-update_where p f rows)

  -- setting the rows of a query to one row
  pub fetchone-update_where_const :
      (p : A → Bool) (row : A) (rows : List A) (x : A)
      → fetchone p rows ≡ some x
      → p row ≡ true
      → fetchone p (update_where p (λ _. row) rows) ≡ some row
  unfolding fetchone update_where
  fetchone-update_where_const p row [] x found hit = ground (arith, found)
  fetchone-update_where_const p row (y ∷ rows) x found hit =
      ground (arith, found, hit, fetchone-update_where_const p row rows x)

  pub fetchone-update_where_const_ne :
      (q p : A → Bool) (row : A) (rows : List A)
      → ((x : A) → p x ≡ true → q x ≡ false)
      → q row ≡ false
      → fetchone q (update_where p (λ _. row) rows) ≡ fetchone q rows
  unfolding fetchone update_where
  fetchone-update_where_const_ne q p row [] other miss = refl
  fetchone-update_where_const_ne q p row (x ∷ rows) other miss =
      ground (arith, miss, other x, fetchone-update_where_const_ne q p row rows other miss)

  pub fetchone_one :
      (p : A → Bool) (row : A) → fetchone p (row ∷ []) ≡ (if p row then some row else none)
  unfolding fetchone
  fetchone_one p row = refl

  -- An update of rows that a query does not find leaves its answer.
  pub fetchone-update_where_ne :
      (q p : A → Bool) (f : A → A) (xs : List A)
      → ((x : A) → q (f x) ≡ q x)
      → ((x : A) → q x ≡ true → p x ≡ false)
      → fetchone q (update_where p f xs) ≡ fetchone q xs
  unfolding fetchone update_where
  fetchone-update_where_ne q p f [] keep other = refl
  fetchone-update_where_ne q p f (x ∷ xs) keep other =
      ground (arith, keep x, other x, fetchone-update_where_ne q p f xs keep other)

  module _ (p : A → Bool) (f : A → A) (row : A) (xs : List A) where
    -- The row that an upsert writes is the one found under its key.
    pub fetchone-upsert_where_self :
        ((x : A) → p (f x) ≡ p x)
        → ((x : A) → p x ≡ true → f x ≡ row)
        → p row ≡ true
        → fetchone p (upsert_where p f row xs) ≡ some row
    unfolding upsert_where
    fetchone-upsert_where_self keep same hit = elim (Option-cases (fetchone p xs)) [
      | inl e ↦ ground (arith, e, fetchone-append p xs (row ∷ []), hit, fetchone_one p row)
      | inr (x, e) ↦
          ground (arith, e, fetchone-update_where p p f xs keep, same x, fetchone_sound p xs x e)
    ]

    -- An upsert is not seen under another key.
    pub fetchone-upsert_where_ne :
        (q : A → Bool)
        → ((x : A) → q (f x) ≡ q x)
        → ((x : A) → q x ≡ true → p x ≡ false)
        → q row ≡ false
        → fetchone q (upsert_where p f row xs) ≡ fetchone q xs
    unfolding upsert_where
    fetchone-upsert_where_ne q keep other miss = elim (Option-cases (fetchone p xs)) [
      | inl e ↦ ground (arith, e, fetchone-append q xs (row ∷ []), miss, fetchone_one q row)
      | inr (x, e) ↦ ground (arith, e, fetchone-update_where_ne q p f xs keep other)
    ]
