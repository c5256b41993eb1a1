-- ===== src/Tokens/Plaintext/RoundTrip.antt =====
-- Minting and parsing agree.
use Prim.Native.Char.{code}
use Prim.Native.String.{◌++◌ as ◌+++◌}
use text.Mathlib.TextLemmas.{cons-append, nil-append}
use markland.Prelude.{
  String, Bool, true, false, some, ◌≡◌, refl, ap, arith, ◌&&◌, is_empty, has_char, len,
  take_chars-append, drop_chars-append, ◌∙◌, subst,
}
use markland.Model.{PrincipalType}
use markland.Tokens.{without_prefix, format_user_token_plaintext, format_agent_token_plaintext}
use markland.Tokens.Plaintext.{is_hex, take_hex, parse_after_type, parse_token_plaintext}

-- a text of n lowercase hexadecimal digits, as secrets.token_hex gives
abbrev pub all_hex : String → Bool
all_hex String.[] = true
all_hex (String.◌∷◌ c s) = is_hex (code c) && all_hex s

take_hex-append :
    (hex after : String)
    → all_hex hex ≡ true
    → take_hex (len hex) (hex +++ after) ≡ some (hex, after)
unfolding take_hex
take_hex-append String.[] after h = rw nil-append refl
take_hex-append (String.◌∷◌ c hex) after h =
    let rest = take_hex-append hex after (ground arith) in
    rw (cons-append, rest) (ground (arith, h))

without_prefix_tok : (hex : String) → without_prefix ("tok_" +++ hex) ≡ hex
without_prefix_tok hex = rw (take_chars-append "tok_" hex, drop_chars-append "tok_" hex) refl

underscore_append : (s : String) → "_" +++ s ≡ String.◌∷◌ "_" s
underscore_append s = cons-append "_" "" s ∙ ap (String.◌∷◌ "_") (nil-append s)

module _ (hex secret : String) (hexes : all_hex hex ≡ true) (sixteen : len hex ≡ 16)
    (nonempty : is_empty secret ≡ false) (one_line : has_char 10 secret ≡ false) where
  take_sixteen : take_hex 16 (hex +++ "_" +++ secret) ≡ some (hex, String.◌∷◌ "_" secret)
  take_sixteen =
      subst (λ n. take_hex n (hex +++ "_" +++ secret) ≡ some (hex, String.◌∷◌ "_" secret)) sixteen
        (rw (underscore_append secret) (take_hex-append hex (String.◌∷◌ "_" secret) hexes))

  parse_after_type-append :
      (principal_type : PrincipalType)
      → parse_after_type principal_type (hex +++ "_" +++ secret)
        ≡ some (record {
          principal_type = principal_type;
          token_id = "tok_" +++ hex;
          secret_part = secret;
        })
  unfolding parse_after_type
  parse_after_type-append principal_type = ground (arith, take_sixteen)

  parse-user :
      parse_token_plaintext (format_user_token_plaintext ("tok_" +++ hex) secret)
      ≡ some (record {
        principal_type = PrincipalType.user;
        token_id = "tok_" +++ hex;
        secret_part = secret;
      })
  unfolding parse_token_plaintext
  parse-user =
      rw
        (
          without_prefix_tok hex,
          take_chars-append "mk_usr_" (hex +++ "_" +++ secret),
          drop_chars-append "mk_usr_" (hex +++ "_" +++ secret),
        )
        (parse_after_type-append PrincipalType.user)

  parse-agent :
      parse_token_plaintext (format_agent_token_plaintext ("tok_" +++ hex) secret)
      ≡ some (record {
        principal_type = PrincipalType.agent;
        token_id = "tok_" +++ hex;
        secret_part = secret;
      })
  unfolding parse_token_plaintext
  parse-agent =
      rw
        (
          without_prefix_tok hex,
          take_chars-append "mk_agt_" (hex +++ "_" +++ secret),
          drop_chars-append "mk_agt_" (hex +++ "_" +++ secret),
        )
        (parse_after_type-append PrincipalType.agent)

-- What is minted for a token id of sixteen hexadecimal digits and a nonempty secret of one line
-- parses back to the id and the secret, as a user's token or an agent's, whichever it was minted as.
pub parse-format :
    (hex secret : String)
    → all_hex hex ≡ true
    → len hex ≡ 16
    → is_empty secret ≡ false
    → has_char 10 secret ≡ false
    → (parse_token_plaintext (format_user_token_plaintext ("tok_" +++ hex) secret)
        ≡ some (record {
          principal_type = PrincipalType.user;
          token_id = "tok_" +++ hex;
          secret_part = secret;
        }))
      × (parse_token_plaintext (format_agent_token_plaintext ("tok_" +++ hex) secret)
          ≡ some (record {
            principal_type = PrincipalType.agent;
            token_id = "tok_" +++ hex;
            secret_part = secret;
          }))
parse-format hex secret hexes sixteen nonempty one_line = (
  parse-user hex secret hexes sixteen nonempty one_line,
  parse-agent hex secret hexes sixteen nonempty one_line,
)
