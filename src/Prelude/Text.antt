-- ===== src/Prelude/Text.antt =====
-- The operations of Python's `str` and of SQLite's text functions that the services use.
use Prim.Native.Nat.{ℕ, ◌+◌, zero, suc}
use Prim.Native.Char.{Char, code}
use Prim.Native.String.{String, ◌++◌ as ◌+++◌}
use mathlib.Core.Bool.{Bool, true, false, ◌&&◌, ◌||◌, not}
use mathlib.Core.Path.{◌≡◌, refl, ap, ◌∙◌}
use mathlib.Core.List.{List, [], ◌∷◌, map}
use native.Mathlib.Omega.{arith}
use text.Mathlib.TextLemmas.{nil-append, cons-append}
use package.markland.Prelude.Tables.{length}
use package.markland.Prelude.Tests.{leb, nat_eq, if◌then◌else◌}

-- The code points of a text.
abbrev pub codes : String → List ℕ
codes String.[] = []
codes (String.◌∷◌ c s) = code c ∷ codes s

-- `bool(s)`
abbrev pub is_empty : String → Bool
is_empty String.[] = true
is_empty (String.◌∷◌ c s) = false

-- `chr(c).isspace()`
unfoldable pub is_space : ℕ → Bool
is_space c =
    leb 9 c && leb c 13
    || leb 28 c && leb c 32
    || nat_eq c 0x85
    || nat_eq c 0xa0
    || nat_eq c 0x1680
    || leb 0x2000 c && leb c 0x200a
    || nat_eq c 0x2028
    || nat_eq c 0x2029
    || nat_eq c 0x202f
    || nat_eq c 0x205f
    || nat_eq c 0x3000

-- the characters at which `str.splitlines` breaks
is_line_break : ℕ → Bool
is_line_break c =
    leb 10 c && leb c 13
    || leb 28 c && leb c 30
    || nat_eq c 0x85
    || nat_eq c 0x2028
    || nat_eq c 0x2029

lstrip : String → String
lstrip String.[] = ""
lstrip (String.◌∷◌ c s) = let rest = lstrip s in if is_space (code c) then rest else String.◌∷◌ c s

rstrip : String → String
rstrip String.[] = ""
rstrip (String.◌∷◌ c s) =
    let rest = rstrip s in if is_space (code c) && is_empty rest then "" else String.◌∷◌ c rest

-- `s.strip()`
unfoldable pub strip : String → String
unfolding lstrip rstrip is_space
strip s = rstrip (lstrip s)

-- no character of the text is a space
abbrev pub has_no_space : String → Bool
has_no_space String.[] = true
has_no_space (String.◌∷◌ c s) = not (is_space (code c)) && has_no_space s

rstrip_no_space : (s : String) → has_no_space s ≡ true → rstrip s ≡ s
unfolding rstrip
rstrip_no_space String.[] h = refl
rstrip_no_space (String.◌∷◌ c s) h = ground (arith, h, rstrip_no_space s)

lstrip_no_space : (s : String) → has_no_space s ≡ true → lstrip s ≡ s
unfolding lstrip
lstrip_no_space String.[] h = refl
lstrip_no_space (String.◌∷◌ c s) h = ground (arith, h)

pub strip_no_space : (s : String) → has_no_space s ≡ true → strip s ≡ s
unfolding strip
strip_no_space s h = ap rstrip (lstrip_no_space s h) ∙ rstrip_no_space s h

-- `s.rstrip(chr(d))`
unfoldable pub rstrip_char : ℕ → String → String
rstrip_char d String.[] = ""
rstrip_char d (String.◌∷◌ c s) =
    let rest = rstrip_char d s in
    if nat_eq (code c) d && is_empty rest then "" else String.◌∷◌ c rest

extend_first : Char → List String → List String
extend_first c [] = String.◌∷◌ c "" ∷ []
extend_first c (line ∷ lines) = String.◌∷◌ c line ∷ lines

-- `after_cr` says that the character before was a carriage return, whose line feed is skipped.
split_from : Bool → String → List String
split_from after_cr String.[] = []
split_from after_cr (String.◌∷◌ c s) =
    let plain = split_from false s in
    let broken = split_from (nat_eq (code c) 13) s in
    if after_cr && nat_eq (code c) 10
    then plain
    else if is_line_break (code c)
    then "" ∷ broken
    else extend_first c plain

-- `s.splitlines()`
unfoldable pub splitlines : String → List String
unfolding split_from extend_first is_line_break
splitlines = split_from false

-- `s[n:]`
abbrev pub drop_chars : ℕ → String → String
drop_chars zero s = s
drop_chars (suc n) String.[] = ""
drop_chars (suc n) (String.◌∷◌ c s) = drop_chars n s

-- `s[:n]`
abbrev pub take_chars : ℕ → String → String
take_chars zero s = ""
take_chars (suc n) String.[] = ""
take_chars (suc n) (String.◌∷◌ c s) = String.◌∷◌ c (take_chars n s)

-- SQLite's `lower`, which folds ASCII letters only
sql_lower : ℕ → ℕ
sql_lower c = if leb b'A' c && leb c b'Z' then c + 32 else c

codes_eq : List ℕ → List ℕ → Bool
codes_eq [] [] = true
codes_eq [] (d ∷ ds) = false
codes_eq (c ∷ cs) [] = false
codes_eq (c ∷ cs) (d ∷ ds) = nat_eq c d && codes_eq cs ds

-- `lower(a) = lower(b)`
unfoldable pub lower_eq : String → String → Bool
unfolding sql_lower codes_eq
lower_eq a b = codes_eq (map sql_lower (codes a)) (map sql_lower (codes b))

-- whether some end of a text has the property
some_end : (List ℕ → Bool) → List ℕ → Bool
some_end p [] = p []
some_end p (c ∷ cs) = p (c ∷ cs) || some_end p cs

one_then : (ℕ → Bool) → (List ℕ → Bool) → List ℕ → Bool
one_then p rest [] = false
one_then p rest (c ∷ cs) = p c && rest cs

-- SQLite's LIKE: `%` stands for any text, `_` for any character, and ASCII letters fold
like_codes : List ℕ → List ℕ → Bool
unfolding some_end one_then sql_lower
like_codes [] [] = true
like_codes [] (c ∷ cs) = false
like_codes (p ∷ ps) cs = elim (nat_eq p b'%') [
  | true ↦ some_end (like_codes ps) cs
  | false ↦ one_then (λ c. nat_eq p b'_' || nat_eq (sql_lower p) (sql_lower c)) (like_codes ps) cs
]

-- `s LIKE pattern`
unfoldable pub like : String → String → Bool
unfolding like_codes
like pattern s = like_codes (codes pattern) (codes s)

-- `chr(d) in s`
unfoldable pub has_char : ℕ → String → Bool
has_char d String.[] = false
has_char d (String.◌∷◌ c s) = nat_eq (code c) d || has_char d s

-- the number of a text's characters
abbrev pub len : String → ℕ
len s = length (codes s)

pub take_chars-append : (p s : String) → take_chars (len p) (p +++ s) ≡ p
take_chars-append String.[] s = refl
take_chars-append (String.◌∷◌ c p) s = rw (cons-append, take_chars-append p s) refl

pub drop_chars-append : (p s : String) → drop_chars (len p) (p +++ s) ≡ s
drop_chars-append String.[] s = nil-append s
drop_chars-append (String.◌∷◌ c p) s = rw (cons-append, drop_chars-append p s) refl
