-- ===== src/Agents/Listing.antt =====
-- service/agents.py: list_paginated
use markland.Prelude.{ℕ, String, Option, List, map}
use markland.Model.{Agent, OwnerType, Db}
use markland.Effects.{Result, ok, err}
use markland.Paging.{Codec, Columns, paginate}
use markland.Agents.{is_listed}

pub record AgentItem : Type 0 where
  pub id : String
  pub display_name : String
  pub owner_type : OwnerType
  pub owner_id : String
  pub created_at : ℕ

abbrev pub agent_item : Agent → AgentItem
agent_item a = record {
  id = a.id;
  display_name = a.display_name;
  owner_type = a.owner_type;
  owner_id = a.owner_id;
  created_at = a.created_at;
}

-- ORDER BY created_at DESC, id DESC
abbrev pub agent_columns : Columns Agent
agent_columns = record { sort_key = λ a. a.created_at; id = λ a. a.id }

abbrev pub agent_page :
    Result (List Agent × Option String) → Result (List AgentItem × Option String)
agent_page (err e) = err e
agent_page (ok (rows, next)) = ok (map agent_item rows, next)

unfoldable pub list_paginated :
    Codec → Db → String → ℕ → Option String → ℕ → Result (List AgentItem × Option String)
list_paginated codec db owner_user_id limit cursor cap =
    agent_page (paginate agent_columns codec cap limit (is_listed owner_user_id) cursor db.agents)
