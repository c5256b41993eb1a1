-- ===== src/Prelude/Rows.antt =====
-- What all rows of a table have.
use mathlib.Core.Path.{◌≡◌, subst}
use mathlib.Core.Bool.{Bool, true, false}
use mathlib.Core.Option.{some}
use mathlib.Core.Logic.{inl, inr}
use mathlib.Core.List.{List, [], ◌∷◌, ◌++◌, Mem, mem-cons_self, mem-cons_of_mem}
use native.Mathlib.Omega.{arith}
use package.markland.Prelude.Tests.{Bool-cases}
use package.markland.Prelude.Tables.{fetchone, select, update_where, delete_where}

module _ {A : Type 0} where
  abbrev pub All : (A → Type 0) → List A → Type 0
  All P [] = Unit
  All P (x ∷ rows) = P x × All P rows

  pub All-trivial : (P : A → Type 0) (rows : List A) → ((x : A) → P x) → All P rows
  All-trivial P [] h = tt
  All-trivial P (x ∷ rows) h = (h x, All-trivial P rows h)

  pub All-map : (P Q : A → Type 0) (rows : List A) → ((x : A) → P x → Q x) → All P rows → All Q rows
  All-map P Q [] f h = tt
  All-map P Q (x ∷ rows) f h = (f x h.0, All-map P Q rows f h.1)

  pub All-and :
      (P Q : A → Type 0) (rows : List A) → All P rows → All Q rows → All (λ x. P x × Q x) rows
  All-and P Q [] h k = tt
  All-and P Q (x ∷ rows) h k = ((h.0, k.0), All-and P Q rows h.1 k.1)

  pub All-Mem : (rows : List A) → All (λ x. Mem x rows) rows
  All-Mem [] = tt
  All-Mem (x ∷ rows) = (
    mem-cons_self,
    All-map (λ y. Mem y rows) (λ y. Mem y (x ∷ rows)) rows (λ y m. mem-cons_of_mem x m)
        (All-Mem rows),
  )

  pub All-select :
      (P : A → Type 0) (p : A → Bool) (rows : List A)
      → All P rows
      → All (λ x. P x × (p x ≡ true)) (select p rows)
  unfolding select
  All-select P p [] h = tt
  All-select P p (x ∷ rows) h = elim (Bool-cases (p x)) [
    | inl e ↦ rw e ((h.0, e), All-select P p rows h.1)
    | inr e ↦ rw e (All-select P p rows h.1)
  ]

  -- an UPDATE gives the rows that it reaches a property, if the others have it
  pub All-update_where :
      (P : A → Type 0) (p : A → Bool) (f : A → A) (rows : List A)
      → ((x : A) → p x ≡ true → P (f x))
      → ((x : A) → p x ≡ false → P x)
      → All P (update_where p f rows)
  unfolding update_where
  All-update_where P p f [] hit miss = tt
  All-update_where P p f (x ∷ rows) hit miss = elim (Bool-cases (p x)) [
    | inl e ↦ rw e (hit x e, All-update_where P p f rows hit miss)
    | inr e ↦ rw e (miss x e, All-update_where P p f rows hit miss)
  ]

  -- what a query finds has the property, and meets the WHERE clause
  pub All-fetchone :
      (P : A → Type 0) (p : A → Bool) (rows : List A) (x : A)
      → All P rows
      → fetchone p rows ≡ some x
      → P x × (p x ≡ true)
  unfolding fetchone
  All-fetchone P p [] x h e = ground arith
  All-fetchone P p (y ∷ rows) x h e = elim (Bool-cases (p y)) [
    | inl hit ↦
        let same : y ≡ x = ground (arith, hit, e) in subst (λ r. P r × (p r ≡ true)) same (h.0, hit)
    | inr miss ↦ All-fetchone P p rows x h.1 (ground (arith, miss, e))
  ]

  pub All-append :
      (P : A → Type 0) (rows more : List A) → All P rows → All P more → All P (rows ++ more)
  All-append P [] more h k = k
  All-append P (x ∷ rows) more h k = (h.0, All-append P rows more h.1 k)

  pub All-delete_where :
      (P : A → Type 0) (p : A → Bool) (rows : List A) → All P rows → All P (delete_where p rows)
  unfolding delete_where
  All-delete_where P p [] h = tt
  All-delete_where P p (x ∷ rows) h = elim (Bool-cases (p x)) [
    | inl e ↦ rw e (All-delete_where P p rows h.1)
    | inr e ↦ rw e (h.0, All-delete_where P p rows h.1)
  ]

  pub All-update_where_const :
      (P : A → Type 0) (p : A → Bool) (row : A) (rows : List A)
      → P row
      → All P rows
      → All P (update_where p (λ _. row) rows)
  unfolding update_where
  All-update_where_const P p row [] k h = tt
  All-update_where_const P p row (x ∷ rows) k h = elim (Bool-cases (p x)) [
    | inl e ↦ rw e (k, All-update_where_const P p row rows k h.1)
    | inr e ↦ rw e (h.0, All-update_where_const P p row rows k h.1)
  ]
