-- ===== src/Presence.antt =====
-- service/presence.py. The `now` that a caller may pass is the clock's in production.
pub mod Laws
use markland.Prelude.{
  ℕ, ◌+◌, ◌*◌, ◌-◌, String, Bool, true, false, Option, none, some, List, ◌==◌, ◌&&◌, is_some,
  fetchone, select, map, length, delete_where, upsert_where, order_desc, ltb, leb, if◌then◌else◌,
}
use markland.Model.{
  Principal, PrincipalType, Activity, Presence, Agent, User, Db, second, whole_second,
}
use markland.Effects.{
  Action, ◌>>=◌, ◌>>◌, pure, reads, gets, guard, or_raise, write, commit, value_error,
  presence_error,
}
use markland.Db.Documents.{get_document}

abbrev pub ttl : ℕ
ttl = 600 * second

-- `_VALID_STATUSES`
unfoldable pub activity_of : String → Option Activity
activity_of status =
    if status == "reading"
    then some Activity.reading
    else if status == "editing"
    then some Activity.editing
    else none

-- PRIMARY KEY (doc_id, principal_id)
abbrev pub is_at : String → String → Presence → Bool
is_at doc_id principal_id p = p.doc_id == doc_id && p.principal_id == principal_id

abbrev pub get_presence : Db → String → String → Option Presence
get_presence db doc_id principal_id = fetchone (is_at doc_id principal_id) db.presence

abbrev pub presence_row : ℕ → String → Principal → Activity → Option String → Presence
presence_row now doc_id principal status note = record {
  doc_id = doc_id;
  principal_id = principal.principal_id;
  principal_type = principal.principal_type;
  status = status;
  note = note;
  updated_at = whole_second now;
  expires_at = whole_second (now + ttl);
}

-- ON CONFLICT(doc_id, principal_id) DO UPDATE
abbrev pub excluded_presence : Presence → Presence → Presence
excluded_presence new p = record p {
  principal_type = new.principal_type;
  status = new.status;
  note = new.note;
  updated_at = new.updated_at;
  expires_at = new.expires_at;
}

abbrev pub put_presence : Presence → Db → Db
put_presence new db = record db {
  presence =
      upsert_where (is_at new.doc_id new.principal_id) (excluded_presence new) new db.presence;
}

pub record PresenceSet : Type 0 where
  pub doc_id : String
  pub status : String
  pub expires_at : ℕ

unfoldable pub set_status : ℕ → String → Principal → String → Option String → Action PresenceSet
unfolding activity_of
set_status now doc_id principal status note = do
  activity ← reads λ _. or_raise (activity_of status) (value_error "status must be one of")
  reads λ db. guard (is_some (get_document db doc_id)) presence_error
  write (put_presence (presence_row now doc_id principal activity note))
  commit
  pure (record { doc_id = doc_id; status = status; expires_at = whole_second (now + ttl) })

unfoldable pub clear_status : String → Principal → Action (Unit {0})
clear_status doc_id principal = do
  write
      λ db. record db { presence = delete_where (is_at doc_id principal.principal_id) db.presence }
  commit
  pure tt

pub record ActivePrincipal : Type 0 where
  pub principal_id : String
  pub principal_type : PrincipalType
  pub display_name : Option String
  pub status : Activity
  pub note : Option String
  pub updated_at : ℕ

abbrev pub name_of_user : Option User → Option String
name_of_user none = none
name_of_user (some u) = u.display_name

abbrev pub name_of_agent : Option Agent → Option String
name_of_agent none = none
name_of_agent (some a) = some a.display_name

-- the LEFT JOINs on users and agents
abbrev pub display_name : Db → PrincipalType → String → Option String
display_name db PrincipalType.user id = name_of_user (fetchone (λ u. u.id == id) db.users)
display_name db PrincipalType.agent id = name_of_agent (fetchone (λ a. a.id == id) db.agents)

abbrev pub active_principal : Db → Presence → ActivePrincipal
active_principal db p = record {
  principal_id = p.principal_id;
  principal_type = p.principal_type;
  display_name = display_name db p.principal_type p.principal_id;
  status = p.status;
  note = p.note;
  updated_at = p.updated_at;
}

-- the WHERE clause
abbrev pub is_present : String → ℕ → Presence → Bool
is_present doc_id now p = p.doc_id == doc_id && ltb (whole_second now) p.expires_at

unfoldable pub list_active : Db → String → ℕ → List ActivePrincipal
list_active db doc_id now =
    map (active_principal db)
      (order_desc (λ p. p.updated_at) (select (is_present doc_id now) db.presence))

abbrev pub is_stale : ℕ → Presence → Bool
is_stale now p = leb p.expires_at (whole_second now)

unfoldable pub gc_expired : ℕ → Action ℕ
gc_expired now = do
  deleted ← gets λ db. length (select (is_stale now) db.presence)
  write λ db. record db { presence = delete_where (is_stale now) db.presence }
  commit
  pure deleted
