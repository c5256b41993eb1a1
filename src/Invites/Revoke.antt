-- ===== src/Invites/Revoke.antt =====
-- service/invites.py: revoke_invite
pub mod Final
use markland.Prelude.{String, some, ◌==◌, is_some, fetchone, update_where, if◌then◌else◌}
use markland.Model.{Fresh}
use markland.Effects.{
  Action, ◌>>=◌, ◌>>◌, pure, reads, guard, or_raise, write, commit, value_error, permission_error,
}
use markland.Invites.Create.{has_invite_id}

unfoldable pub revoke_invite : Fresh → String → String → Action (Unit {0})
revoke_invite fresh invite_id owner_user_id = do
  row ← reads λ db.
      or_raise (fetchone (has_invite_id invite_id) db.invites) (value_error "invite not found")
  reads λ _. guard (row.created_by == owner_user_id) (permission_error "not creator")
  if is_some row.revoked_at then pure tt else do
    write λ db. record db {
      invites =
          update_where (has_invite_id invite_id) (λ inv. record inv { revoked_at = some fresh.now })
            db.invites;
    }
    commit
