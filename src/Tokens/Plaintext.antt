-- ===== src/Tokens/Plaintext.antt =====
-- service/auth.py: _parse_token_plaintext, the inverse of the two formats.
pub mod RoundTrip
use Prim.Native.Char.{Char, code}
use Prim.Native.String.{◌++◌ as ◌+++◌}
use markland.Prelude.{
  ℕ, zero, suc, String, Bool, true, false, Option, none, some, ◌≡◌, refl, arith, ◌&&◌, ◌||◌, not,
  ◌==◌, leb, nat_eq, is_empty, has_char, take_chars, drop_chars, if◌then◌else◌,
}
use markland.Model.{PrincipalType}
use markland.Tokens.{without_prefix, format_user_token_plaintext}

pub record ParsedToken : Type 0 where
  pub principal_type : PrincipalType
  pub token_id : String
  pub secret_part : String

-- `[0-9a-f]`
abbrev pub is_hex : ℕ → Bool
is_hex c = leb b'0' c && leb c b'9' || leb b'a' c && leb c b'f'

-- `[0-9a-f]{n}`, and what follows it
unfoldable pub take_hex : ℕ → String → Option (String × String)
take_hex zero s = some ("", s)
take_hex (suc n) String.[] = none
take_hex (suc n) (String.◌∷◌ c s) =
    let rest = take_hex n s in
    if is_hex (code c)
    then elim rest [ none ↦ none | some (hex, after) ↦ some (String.◌∷◌ c hex, after) ]
    else none

-- `_(.+)` up to the end, where `.` is no line feed
abbrev pub secret_after : PrincipalType → String → String → Option ParsedToken
secret_after principal_type hex String.[] = none
secret_after principal_type hex (String.◌∷◌ c secret) =
    if nat_eq (code c) b'_' && not (is_empty secret) && not (has_char 10 secret)
    then some (record {
      principal_type = principal_type;
      token_id = "tok_" +++ hex;
      secret_part = secret;
    })
    else none

unfoldable pub parse_after_type : PrincipalType → String → Option ParsedToken
parse_after_type principal_type s = elim (take_hex 16 s) [
  | none ↦ none
  | some (hex, after) ↦ secret_after principal_type hex after
]

-- the fullmatch of `^mk_(usr|agt)_([0-9a-f]{16})_(.+)$`
unfoldable pub parse_token_plaintext : String → Option ParsedToken
parse_token_plaintext plaintext =
    if take_chars 7 plaintext == "mk_usr_"
    then parse_after_type PrincipalType.user (drop_chars 7 plaintext)
    else if take_chars 7 plaintext == "mk_agt_"
    then parse_after_type PrincipalType.agent (drop_chars 7 plaintext)
    else none
