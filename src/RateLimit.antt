-- ===== src/RateLimit.antt =====
-- service/rate_limit.py: the token bucket of each key, and the least recently checked key that is
-- dropped. Times are whole microseconds, capacities and periods are positive. The code's floats are
-- exact fractions here: a token is counted as `per` parts, `per` the bucket's period in microseconds.
-- `check` holds the lock throughout, so one call is one step.
pub mod Assign
pub mod Requests
pub mod Room
pub mod Bound
pub mod Credit
pub mod Budget
use markland.Prelude.{
  ℕ, ◌+◌, ◌-◌, ◌*◌, ◌++◌, min, String, Bool, true, false, Option, none, some, List, [], ◌∷◌, ◌==◌,
  is_some, length, fetchone, delete_where, update_where, leb, if◌then◌else◌,
}

pub data Tier : Type 0 where
  user agent anon : Tier

-- `[tokens, last_refill, capacity, period]` under its key
pub record Bucket : Type 0 where
  pub key : String
  pub tokens : ℕ
  pub last_refill : ℕ
  pub cap : ℕ
  pub per : ℕ

-- `defaults[tier]`, where each tier has one, is a capacity and a period in microseconds.
pub record RateLimiter : Type 0 where
  pub defaults : Tier → ℕ × ℕ
  pub max_keys : ℕ
  pub buckets : List Bucket

abbrev pub new_limiter : (Tier → ℕ × ℕ) → ℕ → RateLimiter
new_limiter defaults max_keys = record { defaults = defaults; max_keys = max_keys; buckets = [] }

-- A refusal has the wait in microseconds, a numerator and a denominator.
pub data Decision : Type 0 where
  allowed : Decision
  refused : (retry_after : ℕ × ℕ) → Decision

abbrev pub size : RateLimiter → ℕ
size l = length l.buckets

abbrev pub has_key : String → Bucket → Bool
has_key key b = b.key == key

abbrev pub is_tracked : List Bucket → String → Bool
is_tracked buckets key = is_some (fetchone (has_key key) buckets)

-- `self._buckets[b.key] = b`: in the key's place, or last
unfoldable pub assign : Bucket → List Bucket → List Bucket
assign b buckets =
    if is_tracked buckets b.key
    then update_where (has_key b.key) (λ _. b) buckets
    else buckets ++ b ∷ []

-- `self._buckets.move_to_end(b.key)`, of a bucket that is there
abbrev pub move_to_end : Bucket → List Bucket → List Bucket
move_to_end b buckets = delete_where (has_key b.key) buckets ++ b ∷ []

-- `while len(self._buckets) > self._max: self._buckets.popitem(last=False)`
unfoldable pub drop_oldest : ℕ → List Bucket → List Bucket
drop_oldest max_keys [] = []
drop_oldest max_keys (b ∷ buckets) =
    let rest = drop_oldest max_keys buckets in
    if leb (length (b ∷ buckets)) max_keys then b ∷ buckets else rest

-- the bucket of a new key
abbrev pub full_bucket : String → ℕ → ℕ × ℕ → Bucket
full_bucket key now default = record {
  key = key;
  tokens = default.0 * default.1;
  last_refill = now;
  cap = default.0;
  per = default.1;
}

-- `tokens = min(cap, tokens + (elapsed / per) * cap)`
unfoldable pub refilled : ℕ → Bucket → Bucket
refilled now b = record b {
  tokens = min (b.cap * b.per) (b.tokens + (now - b.last_refill) * b.cap);
  last_refill = now;
}

abbrev pub has_token : Bucket → Bool
has_token b = leb b.per b.tokens

abbrev pub spent : Bucket → Bucket
spent b = record b { tokens = b.tokens - b.per }

-- what the request does to its bucket, once refilled
unfoldable pub charged : Bucket → Bucket
charged b = if has_token b then spent b else b

unfoldable pub decision : Bucket → Decision
decision b = if has_token b then allowed else refused (b.per - b.tokens, b.cap)

-- the key's bucket, refilled, and the buckets where it stands last
abbrev pub look_up : String → Tier → ℕ → RateLimiter → Option Bucket → Bucket × List Bucket
look_up key tier now l none =
    let b = full_bucket key now (l.defaults tier) in
    (b, drop_oldest l.max_keys (assign b l.buckets))
look_up key tier now l (some b) = (refilled now b, move_to_end b l.buckets)

unfoldable pub check : String → Tier → ℕ → RateLimiter → Decision × RateLimiter
check key tier now l =
    let found = look_up key tier now l (fetchone (has_key key) l.buckets) in
    (decision found.0, record l { buckets = assign (charged found.0) found.1 })
