-- ===== src/Agents/Laws.antt =====
-- Who gets a token for an agent, and what a revocation does.
use markland.Prelude.{
  String, true, none, some, [], ◌∷◌, ◌++◌, ◌≡◌, refl, arith, inl, inr, Option-cases,
  fetchone-update_where, fetchone_sound, eq_iff,
}
use markland.Model.{Agent, OwnerType, Fresh}
use markland.Effects.{Conn, ok, err, value_error}
use markland.External.{External}
use markland.Agents.{
  has_agent_id, get_agent, is_owned_by, is_live_agent, set_revoked, revoke_agent, agent_plaintext,
  new_agent_token, create_token_for_agent, create_agent_token,
}

-- Whoever gets a token for an agent is the user who owns it, and the agent is not revoked; what is
-- returned is the fresh token, and what is stored is its hash and digest, under the agent's id.
pub create_agent_token-owner :
    (x : External) (fresh : Fresh) (agent_id owner_user_id label : String) (c : Conn)
    (token : String × String)
    → (create_agent_token x fresh agent_id owner_user_id label c).0 ≡ ok token
    → (a : Agent) × (get_agent c.db agent_id ≡ some a)
      × (a.owner_type ≡ OwnerType.user)
      × (a.owner_id ≡ owner_user_id)
      × (a.revoked_at ≡ none)
      × (token ≡ (fresh.token_id, agent_plaintext fresh))
      × ((create_agent_token x fresh agent_id owner_user_id label c).1.db.tokens
          ≡ c.db.tokens ++ new_agent_token x fresh agent_id label ∷ [])
unfolding create_agent_token create_token_for_agent
create_agent_token-owner x fresh agent_id owner_user_id label c token h =
    elim (Option-cases (get_agent c.db agent_id)) [
      | inl e ↦ absurd (ground arith)
      | inr (a, e) ↦ (
        a,
        e,
        ground (arith, e, h),
        ground (arith, e, h, eq_iff a.owner_id owner_user_id),
        ground (arith, e, h),
        ground (arith, e, h),
        ground (arith, e, h),
      )
    ]

-- A revocation that returns was asked for by the agent's owner, and is final: no token is made for
-- the agent after it, whoever asks.
pub revoke_agent-final :
    (x : External) (fresh fresh' : Fresh) (agent_id owner_user_id other label : String) (c : Conn)
    → (revoke_agent fresh agent_id owner_user_id c).0 ≡ ok tt
    → ((a : Agent) × (get_agent c.db agent_id ≡ some a) × (is_owned_by owner_user_id a ≡ true))
      × (create_agent_token x fresh' agent_id other label
            (revoke_agent fresh agent_id owner_user_id c).1
          ≡ (err (value_error "agent_revoked"), (revoke_agent fresh agent_id owner_user_id c).1))
unfolding revoke_agent create_agent_token
revoke_agent-final x fresh fresh' agent_id owner_user_id other label c h =
    elim (Option-cases (get_agent c.db agent_id)) [
      | inl e ↦ absurd (ground arith)
      | inr (a, e) ↦ (
        (a, e, ground (arith, e, h)),
        ground (
          arith,
          e,
          h,
          fetchone_sound (has_agent_id agent_id) c.db.agents a e,
          fetchone-update_where (has_agent_id agent_id) (is_live_agent agent_id) (set_revoked fresh)
              c.db.agents (λ r. refl),
        ),
      )
    ]
