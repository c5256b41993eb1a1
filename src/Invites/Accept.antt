-- ===== src/Invites/Accept.antt =====
-- service/invites.py: accept_invite
use markland.Prelude.{
  ℕ, ◌-◌, max, String, Bool, false, Option, none, some, [], ◌∷◌, update_where, leb, if◌then◌else◌,
}
use markland.Model.{Level, Grant, Invite, text, Db, Fresh}
use markland.Effects.{Action, ◌>>=◌, ◌>>◌, pure, gets, write, commit}
use markland.External.{External}
use markland.Db.Grants.{get_grant}
use markland.Db.Audit.{record_audit}
use markland.Grants.Upsert.{level_text, grant_by_principal_id}
use markland.Invites.Create.{has_invite_id, user_principal}
use markland.Invites.Resolve.{resolve_invite}

-- `_LEVEL_ORDER`
abbrev pub level_order : Level → ℕ
level_order Level.view = 1
level_order Level.edit = 2

unfoldable pub level_at_least : Level → Level → Bool
level_at_least existing wanted = leb (level_order wanted) (level_order existing)

-- `existing is not None and _level_at_least(existing.level, level)`
abbrev pub suffices : Option Grant → Level → Bool
suffices none level = false
suffices (some g) level = level_at_least g.level level

unfoldable pub record_accept : Fresh → String → String → String → Action (Unit {0})
record_accept fresh user_id doc_id invite_id =
    record_audit fresh "invite_accept" (user_principal user_id) (some doc_id)
      (("invite_id", text invite_id) ∷ [])

abbrev pub remaining_after : Invite → ℕ
remaining_after inv = if inv.single_use then 0 else max (inv.uses_remaining - 1) 0

abbrev pub set_remaining : String → ℕ → Db → Db
set_remaining invite_id n db = record db {
  invites =
      update_where (has_invite_id invite_id) (λ inv. record inv { uses_remaining = n }) db.invites;
}

-- what follows the resolution
unfoldable pub consume_invite : Fresh → Invite → String → Action (Option Grant)
consume_invite fresh inv user_id = do
  write (set_remaining inv.id (remaining_after inv))
  commit
  existing ← gets λ db. get_grant db inv.doc_id user_id
  if suffices existing inv.level
      then (do record_accept fresh user_id inv.doc_id inv.id; pure existing)
      else do
        grant_by_principal_id fresh inv.doc_id user_id "user" (level_text inv.level) inv.created_by
        result ← gets λ db. get_grant db inv.doc_id user_id
        record_accept fresh user_id inv.doc_id inv.id
        pure result

unfoldable pub accept_invite : External → Fresh → String → String → Action (Option Grant)
accept_invite x fresh invite_token user_id = do
  inv ← gets λ db. resolve_invite x db fresh.now invite_token
  elim inv [ none ↦ pure none | some inv' ↦ consume_invite fresh inv' user_id ]
