-- ===== src/Db/Revisions/Laws.antt =====
-- Pruning keeps the newest revisions of a document and all of the others'.
use markland.Prelude.{ℕ, suc, ◌-◌, ◌≤◌, Bool, List, [], ◌∷◌, ◌≡◌, arith, length, drop, select}
use markland.Db.Revisions.{keep_last}

module _ {A : Type 0} (p : A → Bool) (keep : ℕ) where
  drop-suc :
      (n : ℕ) (x : A) (xs : List A) → keep ≤ n → drop (suc n - keep) (x ∷ xs) ≡ drop (n - keep) xs
  drop-suc n x xs h = let e : suc n - keep ≡ suc (n - keep) = omega arith in rw e

  drop_none : (n : ℕ) (xs : List A) → n ≤ keep → drop (n - keep) xs ≡ xs
  drop_none n xs h = let e : n - keep ≡ 0 = omega arith in rw e

  pub select-keep_last :
      (xs : List A)
      → select p (keep_last p keep xs) ≡ drop (length (select p xs) - keep) (select p xs)
  unfolding select keep_last
  select-keep_last [] = ground arith
  select-keep_last (x ∷ xs) = ground (
    arith,
    select-keep_last xs,
    drop-suc (length (select p xs)) x (select p xs),
    drop_none (suc (length (select p xs))) (x ∷ select p xs),
    drop_none (length (select p xs)) (select p xs),
  )
