-- ===== src/Tokens/Resolve.antt =====
-- service/auth.py: _resolve_uncached with its three ways, revoke_token and list_tokens. Failures of
-- the write that touches the row are not modelled.
pub mod Sound
pub mod Lifecycle
use markland.Prelude.{
  ℕ, String, Bool, true, false, Option, none, some, List, [], ◌∷◌, ◌==◌, ◌&&◌, not, is_some, holds,
  fetchone, select, update_where, or_else, ltb, order_desc, length, map, if◌then◌else◌,
}
use markland.Model.{Principal, PrincipalType, OwnerType, User, Agent, Token, Db, Fresh}
use markland.Effects.{Action, Result, ok, ◌>>=◌, ◌>>◌, pure, gets, write, commit}
use markland.External.{External}
use markland.Agents.{get_agent}
use markland.Tokens.Plaintext.{ParsedToken, parse_token_plaintext}

-- LEGACY_TOKEN_CUTOFF, 2026-05-10T00:00:00+00:00, in microseconds
abbrev pub legacy_token_cutoff : ℕ
legacy_token_cutoff = 1_778_371_200_000_000

abbrev pub get_user : Db → String → Option User
get_user db user_id = fetchone (λ u. u.id == user_id) db.users

-- `UPDATE tokens SET last_used_at, token_digest = COALESCE(token_digest, ?) WHERE id`
abbrev pub touched : ℕ → String → Token → Token
touched now digest t = record t {
  last_used_at = some now;
  token_digest = or_else t.token_digest (some digest);
}

abbrev pub has_token_id : String → Token → Bool
has_token_id token_id t = t.id == token_id

unfoldable pub touch : Fresh → String → String → Action (Unit {0})
touch fresh digest token_id = do
  write λ db. record db {
    tokens = update_where (has_token_id token_id) (touched fresh.now digest) db.tokens;
  }
  commit

abbrev pub principal_of_user : User → Principal
principal_of_user u = record {
  principal_id = u.id;
  principal_type = PrincipalType.user;
  display_name = u.display_name;
  is_admin = u.is_admin;
  user_id = none;
}

-- `agent_owner_id if agent_owner_type == "user" else None`
abbrev pub owner_user_id : OwnerType → String → Option String
owner_user_id OwnerType.user owner_id = some owner_id
owner_user_id OwnerType.service owner_id = none

abbrev pub principal_of_agent : Agent → Principal
principal_of_agent a = record {
  principal_id = a.id;
  principal_type = PrincipalType.agent;
  display_name = some a.display_name;
  is_admin = false;
  user_id = owner_user_id a.owner_type a.owner_id;
}

-- the agent, unless it is missing or revoked
abbrev pub live_agent : Option Agent → Option Agent
live_agent none = none
live_agent (some a) = if is_some a.revoked_at then none else some a

-- the principal that a token's row stands for, if there still is one
unfoldable pub build_principal : Db → PrincipalType → String → Option Principal
build_principal db PrincipalType.user principal_id = elim (get_user db principal_id) [
  | none ↦ none
  | some u ↦ some (principal_of_user u)
]
build_principal db PrincipalType.agent principal_id =
    elim (live_agent (get_agent db principal_id)) [
      | none ↦ none
      | some a ↦ some (principal_of_agent a)
    ]

unfoldable pub build_principal_and_touch : Fresh → String → Token → Action (Option Principal)
build_principal_and_touch fresh digest t = do
  principal ← gets λ db. build_principal db t.principal_type t.principal_id
  elim principal [ none ↦ pure none | some p ↦ do touch fresh digest t.id; pure (some p) ]

-- `_NOT_REVOKED_AGENT`
abbrev pub is_revoked_agent : PrincipalType → Option Agent → Bool
is_revoked_agent PrincipalType.user a = false
is_revoked_agent PrincipalType.agent none = false
is_revoked_agent PrincipalType.agent (some a) = is_some a.revoked_at

abbrev pub not_revoked_agent : Db → Token → Bool
not_revoked_agent db t = not (is_revoked_agent t.principal_type (get_agent db t.principal_id))

-- `_DIGEST_LOOKUP_SQL`
abbrev pub has_digest : String → Token → Bool
has_digest digest t = holds t.token_digest digest && not (is_some t.revoked_at)

abbrev pub same_type : PrincipalType → PrincipalType → Bool
same_type PrincipalType.user PrincipalType.user = true
same_type PrincipalType.agent PrincipalType.agent = true
same_type _ _ = false

-- the WHERE clause of way (b)
abbrev pub is_undigested : Db → String → Token → Bool
is_undigested db token_id t =
    t.id == token_id
    && not (is_some t.revoked_at)
    && not (is_some t.token_digest)
    && not_revoked_agent db t

-- the WHERE clause of way (c)
abbrev pub is_legacy : Db → Token → Bool
is_legacy db t =
    not (is_some t.revoked_at)
    && not (is_some t.token_digest)
    && ltb t.created_at legacy_token_cutoff
    && not_revoked_agent db t

abbrev pub build_found : Fresh → String → Option Token → Action (Option Principal)
build_found fresh digest none = pure none
build_found fresh digest (some t) = build_principal_and_touch fresh digest t

-- the second way of two, if the first finds no principal
abbrev pub or_next :
    Action (Option Principal) → Action (Option Principal) → Action (Option Principal)
or_next first next = do found ← first; elim found [ none ↦ next | some p ↦ pure (some p) ]

module _ (x : External) where
  abbrev pub by_token_id : String → ParsedToken → Token → Bool
  by_token_id plaintext parsed t =
      same_type t.principal_type parsed.principal_type && x.verify_token plaintext t.token_hash

  -- the row of way (b), after its checks
  abbrev pub matching : (Token → Bool) → Option Token → Option Token
  matching p none = none
  matching p (some t) = if p t then some t else none

  unfoldable pub find_by_token_id : Db → String → Option ParsedToken → Option Token
  find_by_token_id db plaintext none = none
  find_by_token_id db plaintext (some parsed) =
      matching (by_token_id plaintext parsed)
        (fetchone (is_undigested db parsed.token_id) db.tokens)

  -- the row of way (c): the first candidate that verifies
  unfoldable pub find_legacy : Db → String → Option Token
  find_legacy db plaintext =
      fetchone (λ t. x.verify_token plaintext t.token_hash) (select (is_legacy db) db.tokens)

  unfoldable pub resolve_uncached : Fresh → String → Action (Option Principal)
  resolve_uncached fresh plaintext =
      let digest = x.sha256_hex plaintext in
      or_next (λ c. build_found fresh digest (fetchone (has_digest digest) c.db.tokens) c)
        (or_next
          (λ c.
            build_found fresh digest
              (find_by_token_id c.db plaintext (parse_token_plaintext plaintext)) c)
          (λ c. build_found fresh digest (find_legacy c.db plaintext) c))

-- the WHERE clause of revoke_token
abbrev pub is_own_token : String → String → Token → Bool
is_own_token token_id user_id t =
    t.id == token_id
    && same_type t.principal_type PrincipalType.user
    && t.principal_id == user_id
    && not (is_some t.revoked_at)

-- Whether a row was revoked; the eviction from the cache that follows is in Tokens.Cache.
unfoldable pub revoke_token : Fresh → String → String → Action Bool
revoke_token fresh token_id user_id = do
  hit ← gets λ db. is_some (fetchone (is_own_token token_id user_id) db.tokens)
  write λ db. record db {
    tokens =
        update_where (is_own_token token_id user_id) (λ t. record t { revoked_at = some fresh.now })
          db.tokens;
  }
  commit
  pure hit

unfoldable pub list_tokens : Db → String → List Token
list_tokens db user_id =
    order_desc (λ t. t.created_at)
      (select
        (λ t.
          same_type t.principal_type PrincipalType.user
          && t.principal_id == user_id
          && not (is_some t.revoked_at))
        db.tokens)

-- The counts of live tokens: all, those without a digest, and those that a scan still verifies.
unfoldable pub token_digest_counts : Db → ℕ × (ℕ × ℕ)
token_digest_counts db =
    let live = select (λ t. not (is_some t.revoked_at) && not_revoked_agent db t) db.tokens in
    (
      length live,
      (
        length (select (λ t. not (is_some t.token_digest)) live),
        length (
            select (λ t. not (is_some t.token_digest) && ltb t.created_at legacy_token_cutoff)
              live),
      ),
    )
