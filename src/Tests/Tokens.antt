-- ===== src/Tests/Tokens.antt =====
-- Alice's two tokens: one is revoked, the other resolves.
use markland.Prelude.{false, none, some, [], ◌∷◌, ◌≡◌, refl, Mem, fetchone, update_where, has_char}
use markland.Model.{PrincipalType, Token, User, OwnerType, Fresh}
use markland.Effects.{Conn, ok}
use markland.Tokens.{
  create_user_token, format_user_token_plaintext, format_agent_token_plaintext, new_user_token,
}
use markland.Tokens.Plaintext.{parse_token_plaintext}
use markland.Tokens.Plaintext.RoundTrip.{parse-format}
use markland.Tokens.Resolve.{
  build_principal, resolve_uncached, revoke_token, principal_of_user, build_principal_and_touch,
  touch,
}
use markland.Tokens.Resolve.Sound.{Authenticates, resolve_uncached_sound}
use markland.Tokens.Resolve.Lifecycle.{
  create_user_token-resolve, revoke_token-final, revoke_agent-unresolved, is_of_user,
}
use markland.Agents.{revoke_agent}
use markland.Tests.Samples.{alice, conn, db, fresh, plain}

parse-format_example :
    (parse_token_plaintext (format_user_token_plaintext "tok_0123456789abcdef" "s_9")
      ≡ some (record {
        principal_type = PrincipalType.user;
        token_id = "tok_0123456789abcdef";
        secret_part = "s_9";
      }))
    × (parse_token_plaintext (format_agent_token_plaintext "tok_0123456789abcdef" "s_9")
        ≡ some (record {
          principal_type = PrincipalType.agent;
          token_id = "tok_0123456789abcdef";
          secret_part = "s_9";
        }))
unfolding has_char
parse-format_example = parse-format "0123456789abcdef" "s_9" refl refl refl refl

abbrev later : Fresh
later = record fresh { token_id = "tok_8"; secret_part = "s8" }

abbrev alice_row : User
alice_row = record {
  id = "usr_alice";
  email = "alice@example.com";
  display_name = some "Alice";
  is_admin = false;
  session_epoch = 0;
}

create_user_token-resolve_example :
    (resolve_uncached plain later "mk_usr_9_s9"
      (create_user_token plain fresh "usr_alice" "ci" conn).1).0
    ≡ ok (some (principal_of_user alice_row))
unfolding create_user_token fetchone
create_user_token-resolve_example =
    create_user_token-resolve plain fresh later "usr_alice" "ci" conn alice_row
      ("tok_9", "mk_usr_9_s9") refl refl

-- both tokens are live
abbrev tokens_conn : Conn
tokens_conn = record conn {
  db = record db {
    tokens =
        new_user_token plain fresh "usr_alice" "ci"
        ∷ new_user_token plain later "usr_alice" "cd"
        ∷ [];
    agents =
        record {
          id = "agt_helper";
          display_name = "Helper";
          owner_type = OwnerType.user;
          owner_id = "usr_alice";
          created_at = 5;
          revoked_at = none;
        }
        ∷ [];
  };
}

resolve_uncached_sound_example :
    (t : Token) × Mem t tokens_conn.db.tokens
    × Authenticates plain "mk_usr_9_s9" t
    × (build_principal tokens_conn.db t.principal_type t.principal_id ≡ some alice)
unfolding resolve_uncached build_principal_and_touch build_principal touch fetchone
resolve_uncached_sound_example =
    resolve_uncached_sound plain fresh "mk_usr_9_s9" tokens_conn alice refl

revoke_token-final_example :
    (t : Token) × Mem t (revoke_token later "tok_8" "usr_alice" tokens_conn).1.db.tokens
    × Authenticates plain "mk_usr_9_s9" t
    × (build_principal
          (revoke_token later "tok_8" "usr_alice" tokens_conn).1.db
          t.principal_type
          t.principal_id
        ≡ some alice)
    × (is_of_user "tok_8" "usr_alice" t ≡ false)
unfolding resolve_uncached build_principal_and_touch build_principal touch fetchone revoke_token
    update_where
revoke_token-final_example =
    revoke_token-final plain later fresh "tok_8" "usr_alice" "mk_usr_9_s9" tokens_conn alice refl

revoke_agent-unresolved_example :
    ¬ ((alice.principal_type ≡ PrincipalType.agent) × (alice.principal_id ≡ "agt_helper"))
unfolding resolve_uncached build_principal_and_touch build_principal touch fetchone revoke_agent
revoke_agent-unresolved_example =
    revoke_agent-unresolved plain later fresh "agt_helper" "usr_alice" "mk_usr_9_s9" tokens_conn
      alice refl refl
