-- ===== src/Tests/Revoking.antt =====
-- Alice revokes one of her two invites.
use markland.Prelude.{◌≢◌, refl, arith, fetchone, select, update_where, eq_iff}
use markland.Model.{is_active}
use markland.Invites.Resolve.{is_live, scan, resolve_invite}
use markland.Invites.Revoke.{revoke_invite}
use markland.Invites.Revoke.Final.{OneRow, revoke_invite-final}
use markland.Tests.Samples.{conn, fresh, plain, open_invite}

conn-OneRow : OneRow conn "inv_1"
unfolding fetchone
conn-OneRow = (λ same. refl, (λ same. absurd (ground (arith, eq_iff "inv_2" "inv_1", same)), tt))

revoke_invite-final_example : open_invite.id ≢ "inv_1"
unfolding revoke_invite resolve_invite scan is_live is_active fetchone select update_where
revoke_invite-final_example =
    revoke_invite-final plain fresh "inv_1" "usr_alice" conn 200 "open" open_invite conn-OneRow refl
      refl
