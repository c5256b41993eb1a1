-- ===== src/Tests/Middleware.antt =====
-- A request with Alice's token passes the two middlewares.
use markland.Prelude.{strip, fetchone, String, Option, none, some, List, [], ◌∷◌, ◌≡◌, refl}
use markland.Model.{Principal}
use markland.Effects.{ok}
use markland.Tokens.{new_user_token}
use markland.Tokens.Cache.{resolve_token, get}
use markland.Tokens.Resolve.{resolve_uncached, build_principal_and_touch, build_principal, touch}
use markland.RateLimit.{new_limiter}
use markland.Web.Middleware.{Headers, Memo, World, Served, serve, resolve_request_bearer}
use markland.Web.Middleware.Gate.{arriving, IsGated, serve-IsGated}
use markland.Web.Middleware.Once.{serve_once, serve-once}
use markland.Tests.Samples.{alice, conn, fresh, plain}

abbrev headers : Headers
headers = record {
  authorization = "bearer mk_usr_9_s9";
  fly_client_ip = "";
  client_host = some "10.0.0.1";
  path = "/mcp/";
  origin = "https://markland.dev";
}

abbrev world : World
world = record {
  principal = none;
  bearer_resolution = Memo.unresolved;
  cache = record {
    ttl = 30;
    max_entries = 2;
    entries = [];
    seq = 0;
    cleared_at = 0;
    evicted_at = [];
  };
  limiter = new_limiter (λ tier. (2, 60)) 3;
  conn = record conn {
    db = record conn.db { tokens = new_user_token plain fresh "usr_alice" "ci" ∷ [] };
  };
}

abbrev prefixes : List String
prefixes = "/mcp" ∷ "/admin/" ∷ []

-- an app that answers who asks
abbrev who : World → Served (Option Principal) × World
who w = (Served.answered w.principal, w)

abbrev resolved : World
resolved = (resolve_request_bearer plain fresh headers world).1

serve-IsGated_example :
    IsGated {A = Option Principal} plain fresh headers prefixes
      (arriving world)
      (λ app. serve prefixes plain fresh headers app (arriving world))
serve-IsGated_example = serve-IsGated plain fresh headers prefixes world refl

serve-once_example :
    (serve prefixes plain fresh headers who world
      ≡ serve_once plain fresh headers prefixes who
          (some alice)
          (record resolved { principal = some alice }))
    × ((v : World)
        → v.bearer_resolution ≡ Memo.resolved alice
        → resolve_request_bearer plain fresh headers v ≡ (ok (some alice), v))
unfolding resolve_request_bearer resolve_token strip get fetchone resolve_uncached
    build_principal_and_touch build_principal touch
serve-once_example =
    serve-once plain fresh headers prefixes who (some alice) world resolved refl refl
