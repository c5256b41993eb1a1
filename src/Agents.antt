-- ===== src/Agents.antt =====
-- service/agents.py, and create_agent_token of service/auth.py. The eviction of an agent from the cache
-- of resolved tokens is in Tokens.Cache.
pub mod Laws
pub mod Listing
use Prim.Native.String.{◌++◌ as ◌+++◌}
use markland.Prelude.{
  String, Bool, true, false, Option, none, some, List, [], ◌∷◌, ◌++◌, ◌==◌, ◌&&◌, ◌||◌, not,
  is_some, is_empty, fetchone, select, update_where, order_desc, strip, take_chars, if◌then◌else◌,
}
use markland.Model.{PrincipalType, Agent, OwnerType, User, Token, Db, Fresh}
use markland.Effects.{
  Action, Result, ok, err, ◌>>=◌, ◌>>◌, pure, raise, reads, gets, guard, or_raise, begin_implicit,
  write, commit, value_error, integrity_error, lookup_error, permission_error,
}
use markland.External.{External}
use text.Mathlib.Text.{starts_with}
use markland.Tokens.{format_agent_token_plaintext, may_insert_token}

abbrev pub has_agent_id : String → Agent → Bool
has_agent_id agent_id a = a.id == agent_id

abbrev pub get_agent : Db → String → Option Agent
get_agent db agent_id = fetchone (has_agent_id agent_id) db.agents

abbrev pub is_user_owned : OwnerType → Bool
is_user_owned OwnerType.user = true
is_user_owned OwnerType.service = false

-- `(display_name or "").strip()`, which must not be empty
unfoldable pub checked_name : String → Result String
checked_name display_name =
    if is_empty (strip display_name)
    then err (value_error "display_name_required")
    else ok (strip display_name)

abbrev pub insert_agent : Agent → Action Agent
insert_agent agent = do
  begin_implicit
  reads λ db. guard (not (is_some (get_agent db agent.id))) integrity_error
  write λ db. record db { agents = db.agents ++ agent ∷ [] }
  commit
  pure agent

abbrev pub new_agent : Fresh → String → OwnerType → String → Agent
new_agent fresh name owner_type owner_id = record {
  id = fresh.agent_id;
  display_name = name;
  owner_type = owner_type;
  owner_id = owner_id;
  created_at = fresh.now;
  revoked_at = none;
}

unfoldable pub create_agent : Fresh → String → String → Action Agent
create_agent fresh owner_user_id display_name = do
  name ← reads λ _. checked_name display_name
  reads λ db.
      guard (is_some (fetchone (λ u. u.id == owner_user_id) db.users))
        (value_error "user_not_found")
  insert_agent (new_agent fresh name OwnerType.user owner_user_id)

-- `service_id.startswith("svc_")`, which no empty id does
abbrev pub is_service_id : String → Bool
is_service_id service_id = starts_with service_id "svc_"

unfoldable pub create_service_agent : Fresh → String → String → Action Agent
create_service_agent fresh service_id display_name = do
  name ← reads λ _. checked_name display_name
  reads λ _. guard (is_service_id service_id) (value_error "service_id_required")
  insert_agent (new_agent fresh name OwnerType.service service_id)

-- the WHERE clause of list_agents
abbrev pub is_listed : String → Agent → Bool
is_listed owner_user_id a =
    is_user_owned a.owner_type && a.owner_id == owner_user_id && not (is_some a.revoked_at)

unfoldable pub list_agents : Db → String → List Agent
list_agents db owner_user_id =
    order_desc (λ a. a.created_at) (select (is_listed owner_user_id) db.agents)

-- `owner_type == "user" and owner_id == owner_user_id`
abbrev pub is_owned_by : String → Agent → Bool
is_owned_by owner_user_id a = is_user_owned a.owner_type && a.owner_id == owner_user_id

abbrev pub set_revoked : Fresh → Agent → Agent
set_revoked fresh a = record a { revoked_at = some fresh.now }

-- `WHERE id = ? AND revoked_at IS NULL`
abbrev pub is_live_agent : String → Agent → Bool
is_live_agent agent_id a = has_agent_id agent_id a && not (is_some a.revoked_at)

unfoldable pub revoke_agent : Fresh → String → String → Action (Unit {0})
revoke_agent fresh agent_id owner_user_id = do
  agent ← reads λ db. or_raise (get_agent db agent_id) (lookup_error "agent_not_found")
  reads λ _. guard (is_owned_by owner_user_id agent) (permission_error "not_agent_owner")
  write λ db. record db {
    agents = update_where (is_live_agent agent_id) (set_revoked fresh) db.agents;
  }
  commit
  pure tt

abbrev pub agent_plaintext : Fresh → String
agent_plaintext fresh = format_agent_token_plaintext fresh.token_id fresh.secret_part

module _ (x : External) where
  abbrev pub new_agent_token : Fresh → String → String → Token
  new_agent_token fresh agent_id label = record {
    id = fresh.token_id;
    token_hash = x.hash_token fresh.salt (agent_plaintext fresh);
    token_digest = some (x.sha256_hex (agent_plaintext fresh));
    label = some (strip label);
    principal_type = PrincipalType.agent;
    principal_id = agent_id;
    created_at = fresh.now;
    last_used_at = none;
    revoked_at = none;
  }

  unfoldable pub create_token_for_agent : Fresh → String → String → Action (String × String)
  create_token_for_agent fresh agent_id label = do
    begin_implicit
    reads λ db.
        guard (may_insert_token db fresh.token_id (x.sha256_hex (agent_plaintext fresh)))
          integrity_error
    write λ db. record db { tokens = db.tokens ++ new_agent_token fresh agent_id label ∷ [] }
    commit
    pure (fresh.token_id, agent_plaintext fresh)

  unfoldable pub create_agent_token : Fresh → String → String → String → Action (String × String)
  create_agent_token fresh agent_id owner_user_id label = do
    agent ← reads λ db. or_raise (get_agent db agent_id) (lookup_error "agent_not_found")
    reads λ _. guard (not (is_some agent.revoked_at)) (value_error "agent_revoked")
    reads λ _. guard (is_owned_by owner_user_id agent) (permission_error "not_agent_owner")
    create_token_for_agent fresh agent_id label
