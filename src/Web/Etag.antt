-- ===== src/Web/Etag.antt =====
-- web/api_grants.py: the ETag of a document's version and the If-Match header that names it. Header values
-- are latin-1, whose only decimal digits are those of ASCII.
pub mod RoundTrip
use markland.Prelude.{
  ℕ, zero, suc, ◌+◌, ◌-◌, ◌*◌, ◌/◌, ◌%◌, ◌<◌, ◌≤◌, ◌≡◌, refl, String, Bool, true, false, Option,
  none, some, ◌&&◌, arith, length, codes, is_empty, strip, drop_chars, ltb, leb, nat_eq,
  if◌then◌else◌,
}
use Prim.Native.Char.{Char, code}
use package.text.Mathlib.Text.{starts_with}

-- the decimal digit of a number below ten
unfoldable pub digit : ℕ → Char
digit n =
    if nat_eq n 0
    then "0"
    else if nat_eq n 1
    then "1"
    else if nat_eq n 2
    then "2"
    else if nat_eq n 3
    then "3"
    else if nat_eq n 4
    then "4"
    else if nat_eq n 5
    then "5"
    else if nat_eq n 6
    then "6"
    else if nat_eq n 7
    then "7"
    else if nat_eq n 8
    then "8"
    else "9"

-- the digits of a number before a text; `fuel` above the number is enough
abbrev pub decimal_before : (fuel n : ℕ) → String → String
decimal_before zero n rest = rest
decimal_before (suc fuel) n rest =
    let shorter = decimal_before fuel (n / 10) (String.◌∷◌ (digit (n % 10)) rest) in
    if ltb n 10 then String.◌∷◌ (digit n) rest else shorter

-- `f'W/"{version}"'`
unfoldable pub etag : ℕ → String
etag version =
    String.◌∷◌ "W" (String.◌∷◌ "/" (String.◌∷◌ "\"" (decimal_before (suc version) version "\"")))

-- `int` refuses texts of more digits (sys.int_info.default_max_str_digits).
abbrev pub max_str_digits : ℕ
max_str_digits = 4300

-- `(\d+)"$` and the `int` of the group, behind `count` digits that spell `value`
unfoldable pub closing : (value count : ℕ) → String → Option ℕ
closing value count String.[] = none
closing value count (String.◌∷◌ c s) =
    let more = closing (10 * value + (code c - b'0')) (count + 1) s in
    if leb b'0' (code c) && leb (code c) b'9'
    then more
    else if nat_eq (code c) 34 && is_empty s && leb 1 count && leb count max_str_digits
    then some value
    else none

-- `"` and what follows
abbrev pub quoted : String → Option ℕ
quoted String.[] = none
quoted (String.◌∷◌ c s) = if nat_eq (code c) 34 then closing 0 0 s else none

-- `(?:W/)?`
abbrev pub without_weak : String → String
without_weak String.[] = ""
without_weak (String.◌∷◌ c String.[]) = String.◌∷◌ c ""
without_weak (String.◌∷◌ c (String.◌∷◌ d s)) =
    if nat_eq (code c) b'W' && nat_eq (code d) b'/' then s else String.◌∷◌ c (String.◌∷◌ d s)

unfoldable pub parse_if_match : Option String → Option ℕ
parse_if_match none = none
parse_if_match (some value) = if is_empty value then none else quoted (without_weak (strip value))
