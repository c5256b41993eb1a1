-- ===== src/Web/Etag/RoundTrip.antt =====
-- A version's ETag is read back from an If-Match header.
use markland.Prelude.{
  ℕ, zero, suc, ◌+◌, ◌-◌, ◌*◌, ◌/◌, ◌%◌, ◌<◌, ◌≤◌, ◌≡◌, refl, ◌∙◌, ap, inl, inr, String, true,
  false, some, arith, length, codes, ltb, if◌then◌else◌, Bool-cases, is_space, has_no_space,
  strip_no_space,
}
use Prim.Native.Char.{code}
use markland.Web.Etag.{digit, decimal_before, etag, max_str_digits, closing, parse_if_match}

code-digit : (n : ℕ) → n < 10 → code (digit n) ≡ b'0' + n
unfolding digit
code-digit zero h = refl
code-digit (suc zero) h = refl
code-digit (suc (suc zero)) h = refl
code-digit (suc (suc (suc zero))) h = refl
code-digit (suc (suc (suc (suc zero)))) h = refl
code-digit (suc (suc (suc (suc (suc zero))))) h = refl
code-digit (suc (suc (suc (suc (suc (suc zero)))))) h = refl
code-digit (suc (suc (suc (suc (suc (suc (suc zero))))))) h = refl
code-digit (suc (suc (suc (suc (suc (suc (suc (suc zero)))))))) h = refl
code-digit (suc (suc (suc (suc (suc (suc (suc (suc (suc zero))))))))) h = refl
code-digit (suc (suc (suc (suc (suc (suc (suc (suc (suc (suc n)))))))))) h =
    absurd (omega (arith, h))

is_space-digit : (n : ℕ) → n < 10 → is_space (code (digit n)) ≡ false
unfolding is_space
is_space-digit n h = rw (code-digit n h) (ground (arith, h))

-- how many digits a number has
abbrev pub digit_count : (fuel n : ℕ) → ℕ
digit_count zero n = 0
digit_count (suc fuel) n = let more = digit_count fuel (n / 10) in if ltb n 10 then 1 else more + 1

digit_value : (n : ℕ) → n < 10 → code (digit n) - b'0' ≡ n
digit_value n h = omega (arith, code-digit n h)

closing-digit :
    (value count n : ℕ) (rest : String)
    → n < 10
    → closing value count (String.◌∷◌ (digit n) rest) ≡ closing (10 * value + n) (count + 1) rest
unfolding closing
closing-digit value count n rest h = ground (
  arith,
  h,
  code-digit n h,
  ap (λ m. closing (10 * value + m) (count + 1) rest) (digit_value n h),
)

closing-decimal_before :
    (fuel n : ℕ) (rest : String)
    → n < fuel
    → closing 0 0 (decimal_before fuel n rest) ≡ closing n (digit_count fuel n) rest
closing-decimal_before zero n rest h = ground (arith, h)
closing-decimal_before (suc fuel) n rest h = elim (Bool-cases (ltb n 10)) [
  | inl small ↦
      rw small (
        closing-digit 0 0 n rest (ground (arith, small)) ∙ ap (λ m. closing m 1 rest) (omega arith))
  | inr large ↦ rw large (
      closing-decimal_before fuel (n / 10) (String.◌∷◌ (digit (n % 10)) rest)
        (ground (arith, large, h))
      ∙ closing-digit (n / 10) (digit_count fuel (n / 10)) (n % 10) rest (omega arith)
      ∙ ap (λ m. closing m (digit_count fuel (n / 10) + 1) rest) (omega arith))
]

has_no_space-decimal_before :
    (fuel n : ℕ) (rest : String)
    → has_no_space rest ≡ true
    → has_no_space (decimal_before fuel n rest) ≡ true
has_no_space-decimal_before zero n rest h = h
has_no_space-decimal_before (suc fuel) n rest h = elim (Bool-cases (ltb n 10)) [
  | inl small ↦ rw (small, is_space-digit n (ground (arith, small)), h) refl
  | inr large ↦ rw large (
      has_no_space-decimal_before fuel (n / 10) (String.◌∷◌ (digit (n % 10)) rest)
        (rw (is_space-digit (n % 10) (omega arith), h) refl))
]

digit_count-positive : (fuel n : ℕ) → n < fuel → 1 ≤ digit_count fuel n
digit_count-positive zero n h = ground (arith, h)
digit_count-positive (suc fuel) n h = ground arith

digit_count-length :
    (fuel n : ℕ) (rest : String)
    → length (codes (decimal_before fuel n rest)) ≡ digit_count fuel n + length (codes rest)
digit_count-length zero n rest = omega arith
digit_count-length (suc fuel) n rest =
    ground (arith, digit_count-length fuel (n / 10) (String.◌∷◌ (digit (n % 10)) rest))

etag-has_no_space : (version : ℕ) → has_no_space (etag version) ≡ true
unfolding etag is_space
etag-has_no_space version = has_no_space-decimal_before (suc version) version "\"" refl

-- the number of digits of a version
abbrev pub digits : ℕ → ℕ
digits version = length (codes (decimal_before (suc version) version ""))

closed :
    (value count : ℕ) → 1 ≤ count → count ≤ max_str_digits → closing value count "\"" ≡ some value
unfolding closing
closed value count h k = ground (arith, h, k)

-- The ETag that a document is answered with is accepted as the If-Match header of a change and names the
-- same version, if the version has no more digits than Python reads.
pub parse_if_match-etag :
    (version : ℕ)
    → digits version ≤ max_str_digits
    → parse_if_match (some (etag version)) ≡ some version
unfolding parse_if_match etag
parse_if_match-etag version h =
    let whole = suc version in
    rw (strip_no_space (etag version) (etag-has_no_space version)) (
      closing-decimal_before whole version "\"" (omega arith)
      ∙ closed version (digit_count whole version)
          (digit_count-positive whole version (omega arith))
          (omega (arith, h, digit_count-length whole version "")))
