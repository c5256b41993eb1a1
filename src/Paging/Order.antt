-- ===== src/Paging/Order.antt =====
-- The order of texts, by code points, xs SQLite's and Python's.
use Prim.Native.Char.{code}
use text.Mathlib.TextEquality.{Char-path}
use markland.Prelude.{
  ℕ, String, Bool, true, false, List, [], ◌∷◌, ◌≡◌, refl, arith, ◌&&◌, ◌||◌, ltb, nat_eq, codes,
}

unfoldable pub codes_lt : List ℕ → List ℕ → Bool
codes_lt [] [] = false
codes_lt [] (d ∷ ds) = true
codes_lt (c ∷ cs) [] = false
codes_lt (c ∷ cs) (d ∷ ds) = let rest = codes_lt cs ds in ltb c d || nat_eq c d && rest

abbrev pub text_lt : String → String → Bool
text_lt s t = codes_lt (codes s) (codes t)

pub codes_lt_irrefl : (cs : List ℕ) → codes_lt cs cs ≡ false
unfolding codes_lt
codes_lt_irrefl [] = refl
codes_lt_irrefl (c ∷ cs) = ground (arith, codes_lt_irrefl cs)

pub codes_lt_trans :
    (xs bs cs : List ℕ) → codes_lt xs bs ≡ true → codes_lt bs cs ≡ true → codes_lt xs cs ≡ true
unfolding codes_lt
codes_lt_trans [] [] cs h k = ground arith
codes_lt_trans [] (b ∷ bs) [] h k = ground arith
codes_lt_trans [] (b ∷ bs) (c ∷ cs) h k = refl
codes_lt_trans (a ∷ xs) [] cs h k = ground arith
codes_lt_trans (a ∷ xs) (b ∷ bs) [] h k = ground arith
codes_lt_trans (a ∷ xs) (b ∷ bs) (c ∷ cs) h k = ground (arith, h, k, codes_lt_trans xs bs cs)

-- Of two lists neither of which is below the other, both are one.
pub codes_lt_total : (xs bs : List ℕ) → codes_lt xs bs ≡ false → codes_lt bs xs ≡ false → xs ≡ bs
unfolding codes_lt
codes_lt_total [] [] h k = refl
codes_lt_total [] (b ∷ bs) h k = ground arith
codes_lt_total (a ∷ xs) [] h k = ground arith
codes_lt_total (a ∷ xs) (b ∷ bs) h k = ground (arith, h, k, codes_lt_total xs bs)

pub codes-inj : (s t : String) → codes s ≡ codes t → s ≡ t
codes-inj String.[] String.[] h = refl
codes-inj String.[] (String.◌∷◌ d t) h = ground arith
codes-inj (String.◌∷◌ c s) String.[] h = ground arith
codes-inj (String.◌∷◌ c s) (String.◌∷◌ d t) h =
    let first : code c ≡ code d = ground (arith, h) in
    let rest : codes s ≡ codes t = ground (arith, h) in cc (Char-path c d first, codes-inj s t rest)
