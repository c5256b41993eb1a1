-- ===== src/External.antt =====
-- What the services call and do not implement: argon2 and SHA-256, SQLite's affinity, and Python's Unicode `lower` and
-- `upper`.
use markland.Prelude.{ℕ, String, Bool, Option}

pub record External : Type 0 where
  -- the argon2 hash of a text, under a salt; and whether a text verifies against a hash
  pub hash_token : String → String → String
  pub verify_token : String → String → Bool
  -- the hexadecimal SHA-256 digest of a text's UTF-8 bytes
  pub sha256_hex : String → String
  pub lower : String → String
  pub upper : String → String
  -- `strftime` with the format of _iso
  pub iso : ℕ → String
  -- the integer that SQLite compares an integer column with where it is given a text: the least one
  -- that is no less, and 0 for a negative one; none for a text that is no number
  pub integer_of : String → Option ℕ
