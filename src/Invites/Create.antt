-- ===== src/Invites/Create.antt =====
-- service/invites.py: create_invite and list_invites
use Prim.Native.String.{◌++◌ as ◌+++◌}
use markland.Prelude.{
  ℕ, ◌+◌, ◌*◌, String, Bool, false, Option, none, some, List, [], ◌∷◌, ◌++◌, ◌==◌, ◌||◌, ◌&&◌, not,
  is_some, fetchone, select, order_desc, rstrip_char, if◌then◌else◌,
}
use markland.Model.{Principal, PrincipalType, Invite, text, flag, Db, Fresh}
use markland.Effects.{
  Action, ◌>>=◌, ◌>>◌, pure, reads, guard, or_raise, begin_implicit, write, commit, value_error,
  integrity_error,
}
use markland.External.{External}
use markland.Db.Audit.{record_audit}
use markland.Grants.Upsert.{level_of}

pub record CreatedInvite : Type 0 where
  pub id : String
  pub url : String
  pub level : String
  pub expires_at : Option ℕ

abbrev pub microseconds_per_day : ℕ
microseconds_per_day = 86_400_000_000

abbrev pub has_invite_id : String → Invite → Bool
has_invite_id invite_id inv = inv.id == invite_id

-- the user as a principal, as the audit rows of invites name it
abbrev pub user_principal : String → Principal
user_principal user_id = record {
  principal_id = user_id;
  principal_type = PrincipalType.user;
  display_name = some "";
  is_admin = false;
  user_id = some user_id;
}

-- PRIMARY KEY (id), UNIQUE (token_hash)
abbrev pub may_insert_invite : Db → String → String → Bool
may_insert_invite db invite_id token_hash =
    not (is_some (fetchone (has_invite_id invite_id) db.invites))
    && not (is_some (fetchone (λ inv. inv.token_hash == token_hash) db.invites))

abbrev pub expiry : ℕ → Option ℕ → Option ℕ → Option ℕ
expiry now (some at) days = some at
expiry now none (some days) = some (now + days * microseconds_per_day)
expiry now none none = none

-- "effectively unlimited"
abbrev pub initial_uses : Bool → ℕ
initial_uses single_use = if single_use then 1 else 1_000_000

module _ (x : External) where
  unfoldable pub create_invite :
      Fresh
      → String
      → String
      → String
      → String
      → Bool
      → Option ℕ
      → Option ℕ
      → String
      → Action CreatedInvite
  unfolding level_of
  create_invite fresh doc_id created_by level base_url single_use expires_in_days
        expires_at_override target_email =
      do
        parsed ← reads λ _. or_raise (level_of level) (value_error "invalid level")
        let token_hash = x.hash_token fresh.salt fresh.invite_token
        let expires_at = expiry fresh.now expires_at_override expires_in_days
        begin_implicit
        reads λ db. guard (may_insert_invite db fresh.invite_id token_hash) integrity_error
        write λ db. record db {
          invites =
              db.invites
              ++ record {
                id = fresh.invite_id;
                token_hash = token_hash;
                doc_id = doc_id;
                level = parsed;
                single_use = single_use;
                uses_remaining = initial_uses single_use;
                created_by = created_by;
                created_at = fresh.now;
                expires_at = expires_at;
                revoked_at = none;
                target_email = target_email;
              }
                ∷ [];
        }
        commit
        record_audit fresh "invite_create" (user_principal created_by) (some doc_id) (
            ("invite_id", text fresh.invite_id)
            ∷ ("level", text level)
            ∷ ("single_use", flag single_use)
            ∷ [])
        pure (record {
          id = fresh.invite_id;
          url = rstrip_char b'/' base_url +++ "/invite/" +++ fresh.invite_token;
          level = level;
          expires_at = expires_at;
        })

unfoldable pub list_invites : Db → String → Bool → List Invite
list_invites db doc_id include_revoked =
    order_desc (λ inv. inv.created_at)
      (select (λ inv. inv.doc_id == doc_id && (include_revoked || not (is_some inv.revoked_at)))
        db.invites)
