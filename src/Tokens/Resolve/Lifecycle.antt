-- ===== src/Tokens/Resolve/Lifecycle.antt =====
-- Tokens from their minting to their revocation, and that of their agent.
use markland.Prelude.{
  String, Bool, true, false, none, some, List, [], ◌∷◌, ◌++◌, ◌≡◌, refl, arith, Mem, All, All-Mem,
  All-update_where, eq_iff, eq_refl, fetchone, is_some, Option-cases, Bool-cases, holds, inl, inr,
  fetchone-append, fetchone_one, fetchone_sound, fetchone-update_where, ◌&&◌, ◌==◌, All-and, subst,
}
use markland.Model.{Principal, PrincipalType, Token, User, Agent, Db, Fresh}
use markland.Effects.{Conn, ok}
use markland.External.{External}
use markland.Tokens.{plaintext, new_user_token, create_user_token, may_insert_token}
use markland.Agents.{get_agent, has_agent_id, is_live_agent, set_revoked, revoke_agent}
use markland.Tokens.Resolve.{
  get_user, principal_of_user, build_principal, has_digest, is_own_token, resolve_uncached,
  revoke_token, same_type,
}
use markland.Tokens.Resolve.Sound.{
  Authenticates, resolve_sound, resolve_by_digest, resolve_uncached_sound,
}

undigested :
    (rows : List Token) (digest : String)
    → is_some (fetchone (λ t. holds t.token_digest digest) rows) ≡ false
    → fetchone (has_digest digest) rows ≡ none
unfolding fetchone
undigested [] digest h = refl
undigested (t ∷ rows) digest h = ground (arith, undigested rows digest, h)

create_user_token_lem :
    (x : External) (fresh : Fresh) (user_id label : String) (c : Conn) (token : String × String)
    → (create_user_token x fresh user_id label c).0 ≡ ok token
    → (is_some (fetchone (λ t. holds t.token_digest (x.sha256_hex (plaintext fresh))) c.db.tokens)
        ≡ false)
      × (token.1 ≡ plaintext fresh)
      × ((create_user_token x fresh user_id label c).1.db
          ≡ record c.db { tokens = c.db.tokens ++ new_user_token x fresh user_id label ∷ [] })
unfolding create_user_token
create_user_token_lem x fresh user_id label c token h =
    elim (Bool-cases (may_insert_token c.db fresh.token_id (x.sha256_hex (plaintext fresh)))) [
      | inl free ↦ (ground (arith, free), ground (arith, free, h), rw free refl)
      | inr taken ↦ absurd (ground (arith, taken, h))
    ]

minted_row :
    (rows : List Token) (digest : String) (t : Token)
    → is_some (fetchone (λ r. holds r.token_digest digest) rows) ≡ false
    → t.token_digest ≡ some digest
    → t.revoked_at ≡ none
    → fetchone (has_digest digest) (rows ++ t ∷ []) ≡ some t
minted_row rows digest t free same live = ground (
  arith,
  fetchone-append (has_digest digest) rows (t ∷ []),
  fetchone_one (has_digest digest) t,
  undigested rows digest free,
  eq_refl digest,
)

stored_user :
    (db : Db) (tokens : List Token) (user_id : String) (u : User)
    → get_user db user_id ≡ some u
    → build_principal (record db { tokens = tokens }) PrincipalType.user user_id
      ≡ some (principal_of_user u)
unfolding build_principal
stored_user db tokens user_id u h = ground (arith, h)

-- A token that has been minted for a stored user resolves to that user.
pub create_user_token-resolve :
    (x : External) (fresh fresh' : Fresh) (user_id label : String) (c : Conn) (u : User)
    (token : String × String)
    → get_user c.db user_id ≡ some u
    → (create_user_token x fresh user_id label c).0 ≡ ok token
    → (resolve_uncached x fresh' token.1 (create_user_token x fresh user_id label c).1).0
      ≡ ok (some (principal_of_user u))
create_user_token-resolve x fresh fresh' user_id label c u token stored minted =
    let (free, same, db) = create_user_token_lem x fresh user_id label c token minted in
    let t : Token = new_user_token x fresh user_id label in
    let after = (create_user_token x fresh user_id label c).1 in
    rw same (
      resolve_by_digest x fresh' (plaintext fresh) after t (principal_of_user u)
        (rw db (minted_row c.db.tokens (x.sha256_hex (plaintext fresh)) t free refl refl))
        (rw db (stored_user c.db (c.db.tokens ++ t ∷ []) user_id u stored)))

-- the row of this user's token
abbrev pub is_of_user : String → String → Token → Bool
is_of_user token_id user_id t =
    t.id == token_id && same_type t.principal_type PrincipalType.user && t.principal_id == user_id

abbrev Dead : String → String → Token → Type 0
Dead token_id user_id t = is_of_user token_id user_id t ≡ true → is_some t.revoked_at ≡ true

revoked_rows :
    (fresh : Fresh) (token_id user_id : String) (c : Conn)
    → All (Dead token_id user_id) (revoke_token fresh token_id user_id c).1.db.tokens
unfolding revoke_token
revoked_rows fresh token_id user_id c =
    All-update_where (Dead token_id user_id) (is_own_token token_id user_id)
      (λ t. record t { revoked_at = some fresh.now }) c.db.tokens (λ t hit own. refl)
      (λ t miss own. ground (arith, miss, own))

other_row :
    (token_id user_id : String) (t : Token)
    → Dead token_id user_id t
    → t.revoked_at ≡ none
    → is_of_user token_id user_id t ≡ false
other_row token_id user_id t dead live = elim (Bool-cases (is_of_user token_id user_id t)) [
  | inl own ↦ absurd (ground (arith, dead own, live))
  | inr other ↦ other
]

-- Once a user has revoked a token of theirs, whatever a text resolves to, it does by another token.
pub revoke_token-final :
    (x : External) (fresh fresh' : Fresh) (token_id user_id text : String) (c : Conn)
    (p : Principal)
    → (resolve_uncached x fresh' text (revoke_token fresh token_id user_id c).1).0 ≡ ok (some p)
    → (t : Token) × Mem t (revoke_token fresh token_id user_id c).1.db.tokens
      × Authenticates x text t
      × (build_principal
            (revoke_token fresh token_id user_id c).1.db
            t.principal_type
            t.principal_id
          ≡ some p)
      × (is_of_user token_id user_id t ≡ false)
revoke_token-final x fresh fresh' token_id user_id text c p h =
    let after = (revoke_token fresh token_id user_id c).1 in
    let rows = after.db.tokens in
    let (t, row, authentic, built) =
      resolve_sound x (λ t. Mem t rows × Dead token_id user_id t) fresh' text after
        (All-and (λ t. Mem t rows) (Dead token_id user_id) rows (All-Mem rows)
          (revoked_rows fresh token_id user_id c))
        p h in
    (t, row.0, authentic, built, other_row token_id user_id t row.1 authentic.0)

agent_of_principal :
    (db : Db) (principal_type : PrincipalType) (principal_id : String) (p : Principal)
    → build_principal db principal_type principal_id ≡ some p
    → p.principal_type ≡ PrincipalType.agent
    → (a : Agent) × (get_agent db p.principal_id ≡ some a) × (a.revoked_at ≡ none)
unfolding build_principal
agent_of_principal db PrincipalType.user principal_id p built is_agent = absurd (ground arith)
agent_of_principal db PrincipalType.agent principal_id p built is_agent =
    elim (Option-cases (get_agent db principal_id)) [
      | inl e ↦ absurd (ground (arith, e, built))
      | inr (a, e) ↦
          let same : a.id ≡ principal_id =
            (eq_iff a.id principal_id).0
              (fetchone_sound (has_agent_id principal_id) db.agents a e) in
          let named : p.principal_id ≡ principal_id = ground (arith, e, built, same) in
          (a, rw named e, ground (arith, e, built))
    ]

revoked_agent :
    (fresh : Fresh) (agent_id owner_user_id : String) (c : Conn) (a : Agent)
    → (revoke_agent fresh agent_id owner_user_id c).0 ≡ ok tt
    → get_agent (revoke_agent fresh agent_id owner_user_id c).1.db agent_id ≡ some a
    → is_some a.revoked_at ≡ true
unfolding revoke_agent
revoked_agent fresh agent_id owner_user_id c a h e = elim (Option-cases (get_agent c.db agent_id)) [
  | inl missing ↦ absurd (ground (arith, missing, h))
  | inr (before, found) ↦ ground (
    arith,
    found,
    h,
    e,
    fetchone_sound (has_agent_id agent_id) c.db.agents before found,
    fetchone-update_where (has_agent_id agent_id) (is_live_agent agent_id) (set_revoked fresh)
        c.db.agents (λ r. refl),
  )
]

-- Once an agent is revoked, no token resolves to it.
pub revoke_agent-unresolved :
    (x : External) (fresh fresh' : Fresh) (agent_id owner_user_id text : String) (c : Conn)
    (p : Principal)
    → (revoke_agent fresh agent_id owner_user_id c).0 ≡ ok tt
    → (resolve_uncached x fresh' text (revoke_agent fresh agent_id owner_user_id c).1).0
      ≡ ok (some p)
    → ¬ ((p.principal_type ≡ PrincipalType.agent) × (p.principal_id ≡ agent_id))
revoke_agent-unresolved x fresh fresh' agent_id owner_user_id text c p revoked resolved who =
    let after = (revoke_agent fresh agent_id owner_user_id c).1 in
    let (t, row, authentic, built) = resolve_uncached_sound x fresh' text after p resolved in
    let (a, found, live) =
      agent_of_principal after.db t.principal_type t.principal_id p built who.0 in
    let dead =
      revoked_agent fresh agent_id owner_user_id c a revoked
        (subst (λ i. get_agent after.db i ≡ some a) who.1 found) in
    absurd (ground (arith, live, dead))
