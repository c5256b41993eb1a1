-- ===== src/Tokens.antt =====
-- service/auth.py: minting a token for a user
pub mod Plaintext
pub mod Resolve
pub mod Cache
use Prim.Native.String.{◌++◌ as ◌+++◌}
use markland.Prelude.{
  String, Bool, none, some, [], ◌∷◌, ◌++◌, ◌==◌, ◌&&◌, not, is_some, holds, fetchone, drop_chars,
  if◌then◌else◌, take_chars,
}
use markland.Model.{PrincipalType, Token, Db, Fresh}
use markland.Effects.{
  Action, ◌>>◌, pure, reads, guard, begin_implicit, write, commit, integrity_error,
}
use markland.External.{External}

-- `token_id.removeprefix("tok_")`
abbrev pub without_prefix : String → String
without_prefix token_id =
    if take_chars 4 token_id == "tok_" then drop_chars 4 token_id else token_id

-- `mk_usr_<16 hex>_<secret>`: the token's id without its `tok_`, and the secret
abbrev pub format_user_token_plaintext : String → String → String
format_user_token_plaintext token_id secret_part =
    "mk_usr_" +++ without_prefix token_id +++ "_" +++ secret_part

abbrev pub format_agent_token_plaintext : String → String → String
format_agent_token_plaintext token_id secret_part =
    "mk_agt_" +++ without_prefix token_id +++ "_" +++ secret_part

abbrev pub plaintext : Fresh → String
plaintext fresh = format_user_token_plaintext fresh.token_id fresh.secret_part

-- PRIMARY KEY (id), UNIQUE (token_digest)
abbrev pub may_insert_token : Db → String → String → Bool
may_insert_token db token_id digest =
    not (is_some (fetchone (λ t. t.id == token_id) db.tokens))
    && not (is_some (fetchone (λ t. holds t.token_digest digest) db.tokens))

module _ (x : External) where
  abbrev pub new_user_token : Fresh → String → String → Token
  new_user_token fresh user_id label = record {
    id = fresh.token_id;
    token_hash = x.hash_token fresh.salt (plaintext fresh);
    token_digest = some (x.sha256_hex (plaintext fresh));
    label = some label;
    principal_type = PrincipalType.user;
    principal_id = user_id;
    created_at = fresh.now;
    last_used_at = none;
    revoked_at = none;
  }

  -- The metric that is emitted after the commit is not modelled.
  unfoldable pub create_user_token : Fresh → String → String → Action (String × String)
  create_user_token fresh user_id label = do
    begin_implicit
    reads λ db.
        guard (may_insert_token db fresh.token_id (x.sha256_hex (plaintext fresh))) integrity_error
    write λ db. record db { tokens = db.tokens ++ new_user_token fresh user_id label ∷ [] }
    commit
    pure (fresh.token_id, plaintext fresh)
