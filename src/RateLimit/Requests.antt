-- ===== src/RateLimit/Requests.antt =====
-- Sequences of calls of RateLimiter.check: when and by whom, how many are allowed, and how many keys they
-- add.
use markland.Prelude.{
  ℕ, ◌≤◌, ◌+◌, ◌≡◌, String, Bool, true, List, [], ◌∷◌, ◌==◌, ◌||◌, if◌then◌else◌,
}
use markland.RateLimit.{Tier, RateLimiter, Decision, check, size, is_tracked, allowed, refused}

-- one call of check
pub record Request : Type 0 where
  pub key : String
  pub tier : Tier
  pub at : ℕ

abbrev pub after : List Request → RateLimiter → RateLimiter
after [] l = l
after (r ∷ requests) l = after requests (check r.key r.tier r.at l).1

abbrev pub allowed_count : Decision → ℕ
allowed_count allowed = 1
allowed_count (refused retry_after) = 0

-- how many of the requests of a key are allowed
abbrev pub granted : String → List Request → RateLimiter → ℕ
granted key [] l = 0
granted key (r ∷ requests) l =
    let answer = check r.key r.tier r.at l in
    (if r.key == key then allowed_count answer.0 else 0) + granted key requests answer.1

-- how many keys the requests add to those seen
abbrev pub new_keys : (String → Bool) → List Request → ℕ
new_keys seen [] = 0
new_keys seen (r ∷ requests) =
    let known = new_keys seen requests in
    let added = new_keys (λ k. r.key == k || seen k) requests in
    if seen r.key then known else added + 1

-- No key has to be dropped for the requests.
abbrev pub Fits : RateLimiter → List Request → Type 0
Fits l requests = size l + new_keys (is_tracked l.buckets) requests ≤ l.max_keys

-- The requests come in the order of their times, which lie between two.
abbrev pub IsTimed : ℕ → ℕ → List Request → Type 0
IsTimed start end [] = start ≤ end
IsTimed start end (r ∷ requests) = (start ≤ r.at) × IsTimed r.at end requests

-- the tier of a key's requests
abbrev pub HasTier : String → Tier → Request → Type 0
HasTier key tier r = (r.key == key) ≡ true → r.tier ≡ tier
