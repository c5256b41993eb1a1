-- ===== src/Mcp/Identity.antt =====
-- server.py: who the caller is, its agents, and where it is
use markland.Prelude.{ℕ, String, Option, none, some, List, [], ◌∷◌, is_some, if◌then◌else◌}
use markland.Model.{Principal, PrincipalType, Agent, Fresh, text}
use markland.Effects.{Error, reads, gets, presence_error}
use markland.Paging.{Codec}
use markland.Permissions.{Access, check_permission}
use markland.Presence.{PresenceSet, activity_of, set_status, clear_status}
use markland.Agents.{get_agent}
use markland.Agents.Listing.{AgentItem, agent_item, list_paginated}
use markland.Mcp.{
  Code, Outcome, failed, uncaught, Tool, ◌>>=◌, ◌>>◌, pure, tool_error, catching, access_error,
  require_principal,
}
use markland.Mcp.Envelopes.{ListEnvelope, list_envelope}

pub record Whoami : Type 0 where
  pub principal_id : String
  pub principal_type : PrincipalType
  pub display_name : Option String

unfoldable pub whoami_tool : Option Principal → Whoami
whoami_tool none = record {
  principal_id = "anonymous";
  principal_type = PrincipalType.user;
  display_name = none;
}
whoami_tool (some p) = record {
  principal_id = p.principal_id;
  principal_type = p.principal_type;
  display_name = p.display_name;
}

pub data StatusAnswer : Type 0 where
  cleared : String → StatusAnswer
  set : PresenceSet → StatusAnswer

abbrev pub status_error : {A : Type 0} → Error → Outcome A
status_error presence_error = failed Code.not_found []
status_error e = uncaught e

abbrev pub set_status_tool : Fresh → Principal → String → String → Option String → Tool StatusAnswer
set_status_tool fresh p doc_id status note =
    if is_some (activity_of status)
    then (do
      catching access_error (reads λ db. check_permission db p doc_id Access.view)
      answer ← catching status_error (set_status fresh.now doc_id p status note)
      pure (set answer))
    else tool_error Code.invalid_argument
        (("reason", text "status_must_be_reading_or_editing_or_none") ∷ [])

abbrev pub clear_status_tool : Principal → String → Tool StatusAnswer
clear_status_tool p doc_id = do catching uncaught (clear_status doc_id p); pure (cleared doc_id)

unfoldable pub status_tool :
    Fresh → Option Principal → String → Option String → Option String → Tool StatusAnswer
unfolding activity_of
status_tool fresh ctx doc_id status note = do
  p ← require_principal ctx
  elim status [ none ↦ clear_status_tool p doc_id | some s ↦ set_status_tool fresh p doc_id s note ]

abbrev pub own_row : Option Agent → List AgentItem
own_row none = []
own_row (some a) = agent_item a ∷ []

-- An agent sees itself, if it has an owner.
abbrev pub list_self : Principal → Tool (ListEnvelope AgentItem)
list_self p =
    if is_some p.user_id
    then (do
      row ← catching uncaught (gets λ db. get_agent db p.principal_id)
      pure (list_envelope (own_row row) none))
    else pure (list_envelope [] none)

unfoldable pub list_my_agents_tool :
    Codec → Option Principal → ℕ → Option String → Tool (ListEnvelope AgentItem)
list_my_agents_tool codec ctx limit cursor = do
  p ← require_principal ctx
  elim p.principal_type [
    | PrincipalType.agent ↦ list_self p
    | PrincipalType.user ↦ do
      found ←
          catching uncaught (reads λ db. list_paginated codec db p.principal_id limit cursor 200)
      pure (list_envelope found.0 found.1)
  ]
