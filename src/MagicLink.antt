-- ===== src/MagicLink.antt =====
-- service/magic_link.py: safe_return_to and consume_magic_link_token
pub mod SingleUse
use Prim.Native.Char.{code}
use markland.Prelude.{
  ℕ, ◌-◌, String, Bool, true, false, Option, none, some, List, [], ◌∷◌, ◌++◌, ◌==◌, not, is_some,
  is_empty, fetchone, delete_where, ltb, nat_eq, if◌then◌else◌,
}
use markland.Model.{ConsumedLink, Db}
use markland.Effects.{
  Action, Result, ok, err, ◌>>=◌, ◌>>◌, pure, raise, reads, gets, guard, write, commit, value_error,
  invalid_magic_link,
}

-- What itsdangerous' `loads` comes to: its two exceptions, a payload that is no dict, or a dict with
-- those of its `email` and `jti` that are texts.
pub data Loaded : Type 0 where
  bad_signature signature_expired no_dict : Loaded
  payload : (email jti : Option String) → Loaded

-- `URLSafeTimedSerializer(secret, salt).loads(token, max_age)` at a time, in seconds
pub record Serializer : Type 0 where
  pub loads : (secret : String) → (now max_age : ℕ) → (token : String) → Loaded

abbrev starts_with_slash : String → Bool
starts_with_slash String.[] = false
starts_with_slash (String.◌∷◌ c s) = nat_eq (code c) b'/'

-- The path, if it is one of this site: it starts with one slash.
unfoldable pub safe_return_to : String → String
safe_return_to String.[] = "/"
safe_return_to (String.◌∷◌ c s) =
    if nat_eq (code c) b'/' then if starts_with_slash s then "/" else String.◌∷◌ c s else "/"

abbrev pub read_payload : Loaded → Result (String × String)
read_payload Loaded.bad_signature = err (invalid_magic_link "invalid magic link")
read_payload Loaded.signature_expired = err (invalid_magic_link "magic link expired")
read_payload Loaded.no_dict = err (invalid_magic_link "invalid magic link payload")
read_payload (Loaded.payload (some email) (some jti)) = ok (email, jti)
read_payload (Loaded.payload (some email) none) =
    err (invalid_magic_link "invalid magic link payload")
read_payload (Loaded.payload none jti) = err (invalid_magic_link "invalid magic link payload")

abbrev pub has_jti : String → ConsumedLink → Bool
has_jti jti link = link.jti == jti

-- the rows that the opportunistic GC deletes; a cutoff below 0 deletes none, as 0 does
abbrev pub is_old : ℕ → ℕ → ConsumedLink → Bool
is_old now max_age link = ltb link.consumed_at (now - max_age)

-- INSERT OR IGNORE
abbrev pub insert_or_ignore : ConsumedLink → List ConsumedLink → List ConsumedLink
insert_or_ignore link rows =
    if is_some (fetchone (has_jti link.jti) rows) then rows else rows ++ link ∷ []

-- what follows the check of the signature
unfoldable pub consume_payload : ℕ → ℕ → String → String → Action String
consume_payload now max_age email jti = do
  write λ db. record db {
    magic_link_consumed = delete_where (is_old now max_age) db.magic_link_consumed;
  }
  ignored ← gets λ db. is_some (fetchone (has_jti jti) db.magic_link_consumed)
  write λ db. record db {
    magic_link_consumed =
        insert_or_ignore (record { jti = jti; email = email; consumed_at = now })
          db.magic_link_consumed;
  }
  commit
  if ignored then raise (invalid_magic_link "magic link already used") else pure email

-- The clock is read twice: in `loads`, and then for the table.
unfoldable pub consume_magic_link_token :
    Serializer → (loaded_at now max_age : ℕ) → String → String → Action String
consume_magic_link_token s loaded_at now max_age secret token = do
  reads λ _. guard (not (is_empty secret)) (value_error "session secret must be non-empty")
  link ← reads λ _. read_payload (s.loads secret loaded_at max_age token)
  consume_payload now max_age link.0 link.1
