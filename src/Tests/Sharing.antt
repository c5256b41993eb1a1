-- ===== src/Tests/Sharing.antt =====
-- Grants, revocations and invites on the sample documents.
use markland.Prelude.{
  ◌≤◌, String, true, false, Option, none, some, ◌≡◌, ◌≢◌, ◌⊎◌, refl, is_some, fetchone, select,
  update_where, upsert_where, strip, has_char, lower_eq,
}
use markland.Model.{Grant, Invite, Level, User, is_active}
use markland.Effects.{Conn, Result, ok}
use markland.Db.Documents.{get_document, rotate_share_token}
use markland.Db.Grants.{get_grant, delete_grant, upsert_grant}
use markland.Grants.Upsert.{level_of, principal_type_of, grant_by_principal_id}
use markland.Db.Audit.{record_audit}
use markland.Permissions.{check_permission}
use markland.Grants.Target.{resolve_target, lookup_user_by_email}
use markland.Grants.Share.{Dispatcher, grant_email}
use markland.Grants.Share.Users.{user_grant, grant_email-user}
use markland.Grants.Revoke.{Revoked, revoke}
use markland.Grants.Revoke.Effect.{revoke-effect}
use markland.Invites.Resolve.{is_live, scan, resolve_invite}
use markland.Invites.Accept.{
  level_order, level_at_least, record_accept, consume_invite, accept_invite,
}
use markland.Invites.Acceptance.{accept_invite-grants, accept_invite-single_use}
use markland.Tests.Samples.{alice, plan, edit_invite, open_invite, db, conn, fresh, plain}

abbrev bob_user : User
bob_user = record {
  id = "usr_bob";
  email = "bob@example.com";
  display_name = none;
  is_admin = false;
  session_epoch = 0;
}

-- a dispatcher that takes every mail
abbrev mailer : Dispatcher
mailer = some (λ mail. true)

abbrev grant_bob : Result Grant × Conn
grant_bob = grant_email plain fresh alice plan "" "Bob@Example.com" Level.edit mailer conn

grant_email-user_example :
    (grant_bob.0 ≡ ok (user_grant fresh alice plan bob_user Level.edit))
    × (get_grant grant_bob.1.db "plan" "usr_bob"
        ≡ some (user_grant fresh alice plan bob_user Level.edit))
    × (grant_bob.1.db.documents ≡ conn.db.documents)
    × (grant_bob.1.db.invites ≡ conn.db.invites)
unfolding resolve_target lookup_user_by_email strip has_char lower_eq fetchone
grant_email-user_example =
    grant_email-user plain fresh alice plan "" "Bob@Example.com" Level.edit mailer conn bob_user
      refl

abbrev revoke_bob : Result Revoked × Conn
revoke_bob = revoke fresh alice "plan" "usr_bob" conn

abbrev bob_revoked : Revoked
bob_revoked = record { revoked = true; doc_id = "plan"; principal_id = "usr_bob" }

revoke_bob_returns : revoke_bob.0 ≡ ok bob_revoked
unfolding revoke delete_grant record_audit rotate_share_token check_permission fetchone
revoke_bob_returns = refl

revoke-effect_example :
    (get_grant revoke_bob.1.db "plan" "usr_bob" ≡ none)
    × (true ≡ is_some (get_grant db "plan" "usr_bob"))
    × (get_document revoke_bob.1.db "plan" ≡ some (record plan { share_token = "link9" }))
unfolding fetchone
revoke-effect_example =
    revoke-effect fresh alice "plan" "usr_bob" conn plan bob_revoked refl revoke_bob_returns

invite_resolves : resolve_invite plain db 100 "secret" ≡ some edit_invite
unfolding resolve_invite scan is_live is_active select
invite_resolves = refl

abbrev accept_bob : Result (Option Grant) × Conn
accept_bob = accept_invite plain fresh "secret" "usr_bob" conn

accept_invite-grants_example :
    ((resolve_invite plain db 100 "secret" ≡ none) × (accept_bob ≡ (ok none, conn)))
    ⊎ ((inv : Invite) × (g : Grant) × (resolve_invite plain db 100 "secret" ≡ some inv)
        × (accept_bob.0 ≡ ok (some g))
        × (get_grant accept_bob.1.db inv.doc_id "usr_bob" ≡ some g)
        × (level_order inv.level ≤ level_order g.level)
        × ((e : Grant)
            → get_grant db inv.doc_id "usr_bob" ≡ some e
            → level_order e.level ≤ level_order g.level))
accept_invite-grants_example = accept_invite-grants plain fresh "secret" "usr_bob" conn

open_still_resolves : resolve_invite plain accept_bob.1.db 101 "open" ≡ some open_invite
unfolding resolve_invite scan is_live is_active select accept_invite consume_invite record_accept
    record_audit level_at_least grant_by_principal_id level_of principal_type_of upsert_grant
    upsert_where fetchone update_where
open_still_resolves = refl

accept_invite-single_use_example : ◌≢◌ {A = String} "inv_2" "inv_1"
accept_invite-single_use_example =
    accept_invite-single_use plain fresh "secret" "usr_bob" conn edit_invite invite_resolves refl
      101 "open" open_invite open_still_resolves
