-- ===== src/Web/Middleware.antt =====
-- web/_request_bearer.py, web/_request_ip.py, web/rate_limit_middleware.py, web/principal_middleware.py: the
-- two middlewares that every request passes, the rate limit outside. The metric of a first MCP call and
-- the limits' environment variables are not modelled.
pub mod Once
pub mod Gate
use Prim.Native.String.{◌++◌ as ◌+++◌}
use package.text.Mathlib.Text.{starts_with}
use markland.Prelude.{
  ℕ, ◌+◌, ◌-◌, ◌*◌, ◌/◌, max, String, Bool, true, false, Option, none, some, List, [], ◌∷◌, ◌||◌,
  is_some, is_empty, strip, drop_chars, if◌then◌else◌,
}
use markland.Model.{Principal, PrincipalType, Fresh, second}
use markland.Effects.{Conn, Result, ok, err}
use markland.External.{External}
use markland.Tokens.Cache.{Cache, resolve_token}
use markland.RateLimit.{Tier, RateLimiter, Decision, allowed, refused, check}

-- What the middlewares read of a request; a header that it does not have is "".
pub record Headers : Type 0 where
  pub authorization : String
  pub fly_client_ip : String
  pub client_host : Option String
  pub path : String
  pub origin : String

-- the memo of a request's bearer: none yet, RESOLVED_INVALID, or a principal
pub data Memo : Type 0 where
  unresolved invalid : Memo
  resolved : Principal → Memo

-- What a request passes through: request.state, the token cache, the limiter and the database.
pub record World : Type 0 where
  pub principal : Option Principal
  pub bearer_resolution : Memo
  pub cache : Cache
  pub limiter : RateLimiter
  pub conn : Conn

abbrev pub memo_of : Result (Option Principal) → Memo
memo_of (err e) = Memo.unresolved
memo_of (ok none) = Memo.invalid
memo_of (ok (some p)) = Memo.resolved p

module _ (x : External) (fresh : Fresh) (headers : Headers) where
  abbrev pub is_bearer : Bool
  is_bearer = starts_with (x.lower headers.authorization) "bearer "

  -- `resolve_token(conn, header[7:].strip())`; an exception is not memoized
  abbrev pub resolve_header : World → Result (Option Principal) × World
  resolve_header w =
      let r = resolve_token x fresh (strip (drop_chars 7 headers.authorization)) w.cache w.conn in
      (r.0.0, record w { bearer_resolution = memo_of r.0.0; cache = r.0.1; conn = r.1 })

  abbrev pub resolve_memo : Memo → World → Result (Option Principal) × World
  resolve_memo Memo.invalid w = (ok none, w)
  resolve_memo (Memo.resolved p) w = (ok (some p), w)
  resolve_memo Memo.unresolved w = if is_bearer then resolve_header w else (ok none, w)

  unfoldable pub resolve_request_bearer : World → Result (Option Principal) × World
  resolve_request_bearer w = resolve_memo w.bearer_resolution w

  -- `except Exception: principal = None`, and what is found is set on the request
  abbrev pub set_principal : Result (Option Principal) → World → Option Principal × World
  set_principal (err e) w = (none, w)
  set_principal (ok none) w = (none, w)
  set_principal (ok (some p)) w = (some p, record w { principal = some p })

  abbrev pub resolve_lazily : Option Principal → World → Option Principal × World
  resolve_lazily (some p) w = (some p, w)
  resolve_lazily none w = let (r, w') = resolve_request_bearer w in set_principal r w'

  -- of a middleware with a database
  unfoldable pub resolve_principal_lazy : World → Option Principal × World
  resolve_principal_lazy w = resolve_lazily w.principal w

abbrev pub host_or_unknown : Option String → String
host_or_unknown none = "unknown"
host_or_unknown (some host) = if is_empty host then "unknown" else host

unfoldable pub trusted_client_ip : Headers → String
trusted_client_ip headers =
    if is_empty (strip headers.fly_client_ip)
    then host_or_unknown headers.client_host
    else strip headers.fly_client_ip

abbrev pub tier_of : PrincipalType → Tier
tier_of PrincipalType.user = Tier.user
tier_of PrincipalType.agent = Tier.agent

abbrev pub key_of : PrincipalType → String → String
key_of PrincipalType.user id = "user:" +++ id
key_of PrincipalType.agent id = "agent:" +++ id

-- the key and the tier
unfoldable pub bucket_of : Headers → Option Principal → String × Tier
bucket_of headers none = ("ip:" +++ trusted_client_ip headers, Tier.anon)
bucket_of headers (some p) = (key_of p.principal_type p.principal_id, tier_of p.principal_type)

-- What a request comes to: a 429 with its Retry-After, a 401 with the address of the metadata, what the app
-- answers, or an exception.
pub data Served (A : Type 0) : Type 0 where
  rate_limited : (retry : ℕ) → Served A
  unauthenticated : (metadata_url : String) → Served A
  answered : A → Served A
  failed : Served A

-- `max(1, math.ceil(retry_after))`, in seconds
abbrev pub retry_seconds : ℕ × ℕ → ℕ
retry_seconds wait = max 1 ((wait.0 + (wait.1 * second - 1)) / (wait.1 * second))

-- `any(path.startswith(p) for p in prefixes)`
abbrev pub is_protected : List String → String → Bool
is_protected [] path = false
is_protected (prefix ∷ prefixes) path = starts_with path prefix || is_protected prefixes path

module _ {A : Type 0} (call_next : World → Served A × World) where
  abbrev pub after_check : Decision → World → Served A × World
  after_check allowed w = call_next w
  after_check (refused retry_after) w = (rate_limited (retry_seconds retry_after), w)

  -- RateLimitMiddleware.dispatch
  unfoldable pub rate_limit_dispatch : External → Fresh → Headers → World → Served A × World
  rate_limit_dispatch x fresh headers w =
      let (principal, w') = resolve_principal_lazy x fresh headers w in
      let (key, tier) = bucket_of headers principal in
      let (decision, limiter) = check key tier fresh.now w'.limiter in
      after_check decision (record w' { limiter = limiter })

  abbrev pub pass_resolved : Headers → Result (Option Principal) → World → Served A × World
  pass_resolved headers (err e) w = (failed, w)
  pass_resolved headers (ok none) w =
      (unauthenticated (headers.origin +++ "/.well-known/oauth-protected-resource"), w)
  pass_resolved headers (ok (some p)) w = call_next (record w { principal = some p })

  abbrev pub pass_protected :
      External → Fresh → Headers → Option Principal → World → Served A × World
  pass_protected x fresh headers (some p) w = call_next w
  pass_protected x fresh headers none w =
      let (r, w') = resolve_request_bearer x fresh headers w in pass_resolved headers r w'

  -- PrincipalMiddleware.dispatch
  unfoldable pub principal_dispatch :
      List String → External → Fresh → Headers → World → Served A × World
  principal_dispatch prefixes x fresh headers w =
      if is_protected prefixes headers.path
      then pass_protected x fresh headers w.principal w
      else call_next w

-- create_app adds PrincipalMiddleware first, so that the rate limit stands before it.
unfoldable pub serve :
    {A : Type 0}
    → List String
    → External
    → Fresh
    → Headers
    → (World → Served A × World)
    → World
    → Served A × World
serve prefixes x fresh headers app w =
    rate_limit_dispatch (principal_dispatch app prefixes x fresh headers) x fresh headers w
