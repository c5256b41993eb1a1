-- ===== src/Tests/Cache.antt =====
-- A cache of one entry: Alice is cached, evicted, and put again by a late resolve; Bob is then served.
use markland.Prelude.{[], ◌∷◌, List, ◌≡◌, ◌≢◌, refl, arith, fetchone, delete_where}
use markland.Tokens.Cache.{Cache, Call, get, put, run, evict_principal, last_eviction}
use markland.Tokens.Cache.Bound.{IsBounded, run-IsBounded}
use markland.Tokens.Cache.Eviction.{get-evicted}
use markland.Tests.Samples.{alice, bob}

abbrev cache : Cache
cache = record {
  ttl = 60;
  max_entries = 1;
  entries = record { key = "a"; expires_at = 60; principal = alice } ∷ [];
  seq = 0;
  cleared_at = 0;
  evicted_at = [];
}

abbrev calls : List Call
calls = Call.puts "a" alice 0 5 ∷ Call.puts "b" bob 0 6 ∷ []

run-IsBounded_example :
    IsBounded (run calls cache) × ((run calls cache).max_entries ≡ cache.max_entries)
run-IsBounded_example = run-IsBounded calls cache (omega arith)

get-evicted_example : bob.principal_id ≢ "usr_alice"
unfolding get put evict_principal last_eviction fetchone delete_where
get-evicted_example = get-evicted "usr_alice" "b" 7 calls cache bob (omega arith) refl
