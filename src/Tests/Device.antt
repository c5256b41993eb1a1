-- ===== src/Tests/Device.antt =====
-- A device code that is confirmed, and one that is exchanged for a token.
use Prim.Native.String.{◌++◌ as ◌+++◌}
use markland.Db.Audit.{record_audit}
use markland.Db.Grants.{upsert_grant}
use markland.Grants.Upsert.{level_of, principal_type_of, grant_by_principal_id}
use markland.Invites.Resolve.{is_live, scan, resolve_invite}
use markland.Invites.Accept.{level_at_least, record_accept, consume_invite, accept_invite}
use markland.Prelude.{
  select, upsert_where, ◌++◌, ◌<◌, ◌≤◌, none, some, [], ◌∷◌, ◌≡◌, ◌≢◌, ◌⊎◌, refl, arith, fetchone,
  is_space, ◌++◌,
}
use markland.Model.{is_active, DeviceAuthorization, DeviceStatus, Fresh}
use markland.Effects.{Conn, ok}
use markland.Tokens.{plaintext, new_user_token, create_user_token}
use markland.Device.{format_user_code, without_separators}
use markland.Device.Poll.{PollResult, poll, poll_row, poll_status, mint}
use markland.Device.Authorize.{authorize, Reason}
use markland.Device.Confirm.{Confirmed, Refused, authorize-outcome}
use markland.Device.Exchange.{authorize-poll}
use markland.Device.Once.{Step, run, poll-single_token}
use markland.Tests.Samples.{db, conn, fresh, plain}

abbrev waiting : DeviceAuthorization
waiting = record {
  device_code = "dev1";
  user_code = "BCDFGHJK";
  status = DeviceStatus.pending;
  user_id = none;
  invite_token = some "secret";
  created_at = 0;
  expires_at = 600_000_000;
  polled_last = some 1_000_000;
  authorized_at = none;
  consumed_at = none;
  failed_confirms = 4;
}

abbrev waiting_conn : Conn
waiting_conn = record conn { db = record db { device_authorizations = waiting ∷ [] } }

abbrev ready : DeviceAuthorization
ready = record waiting { status = DeviceStatus.authorized; user_id = some "usr_bob" }

abbrev ready_conn : Conn
ready_conn = record conn { db = record db { device_authorizations = ready ∷ [] } }

abbrev later : Fresh
later = record fresh { now = 20_000_000; token_id = "tok_10"; invite_id = "inv_10" }

poll-single_token_example :
    (poll plain later "dev1" (
      run plain
        (Step.starts fresh none "" ∷ Step.confirms later "dev1" "usr_bob" ∷ [])
        (poll plain (record fresh { now = 9_000_000 }) "dev1" ready_conn).1)).0
    ≢ ok (PollResult.authorized "mk_usr_10_s9")
unfolding poll fetchone poll_row poll_status mint create_user_token
poll-single_token_example =
    poll-single_token plain (record fresh { now = 9_000_000 }) later "dev1" "mk_usr_9_s9"
      "mk_usr_10_s9" (Step.starts fresh none "" ∷ Step.confirms later "dev1" "usr_bob" ∷ [])
      ready_conn refl

abbrev soon : Fresh
soon = record fresh { now = 9_000_000 }

authorize-outcome_example :
    ((waiting.status ≡ DeviceStatus.pending)
      × (fresh.now < waiting.expires_at)
      × Confirmed fresh "usr_bob" "BCDF-GHJK" waiting
          (authorize plain fresh "BCDF-GHJK" "usr_bob" waiting_conn))
    ⊎ (((waiting.status ≢ DeviceStatus.pending) ⊎ (waiting.expires_at ≤ fresh.now))
        × (reason : Reason) × Refused "BCDF-GHJK" waiting
            (authorize plain fresh "BCDF-GHJK" "usr_bob" waiting_conn)
            reason)
unfolding format_user_code without_separators fetchone is_space
authorize-outcome_example =
    authorize-outcome plain fresh "BCDF-GHJK" "usr_bob" "BCDF-GHJK" waiting_conn waiting refl refl
      refl

authorize-poll_example :
    ((poll plain later "dev1" (authorize plain fresh "dev1" "usr_bob" waiting_conn).1).0
      ≡ ok (PollResult.authorized (plaintext later)))
    × ((poll plain later "dev1" (authorize plain fresh "dev1" "usr_bob" waiting_conn).1).1.db.tokens
        ≡ (authorize plain fresh "dev1" "usr_bob" waiting_conn).1.db.tokens
          ++ new_user_token plain later "usr_bob" ("Device flow " +++ plain.iso later.now) ∷ [])
unfolding format_user_code fetchone authorize accept_invite resolve_invite scan select is_live
    is_active consume_invite level_at_least grant_by_principal_id level_of principal_type_of
    upsert_grant upsert_where record_accept record_audit
authorize-poll_example =
    authorize-poll plain fresh later "dev1" "usr_bob" "BCDF-GHJK" waiting_conn waiting refl refl
      refl refl refl refl (omega arith) (omega arith) refl
