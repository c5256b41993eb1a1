-- ===== src/Tests/Presence.antt =====
-- Presence at the sample documents.
use markland.Prelude.{none, [], ◌∷◌, ◌≡◌, arith}
use markland.Model.{Activity, PrincipalType}
use markland.Effects.{Conn}
use markland.Presence.{presence_row, list_active, gc_expired}
use markland.Presence.Laws.{gc_expired-list_active}
use markland.Tests.Samples.{alice, db, conn}

-- Bob's row is stale at second 5, Alice's is not.
abbrev two_rows : Conn
two_rows = record conn {
  db = record db {
    presence =
        record {
          doc_id = "plan";
          principal_id = "usr_bob";
          principal_type = PrincipalType.user;
          status = Activity.reading;
          note = none;
          updated_at = 1_000_000;
          expires_at = 5_000_000;
        }
        ∷ presence_row 4_000_000 "plan" alice Activity.editing none
        ∷ [];
  };
}

gc_expired-list_active_example :
    list_active (gc_expired 5_500_000 two_rows).1.db "plan" 6_000_000
    ≡ list_active two_rows.db "plan" 6_000_000
gc_expired-list_active_example =
    gc_expired-list_active 5_500_000 6_000_000 "plan" two_rows (omega arith)
