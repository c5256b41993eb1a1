-- ===== src/RateLimit/Budget.antt =====
-- What a key is granted in a window of time.
use markland.Prelude.{ℕ, ◌≤◌, ◌+◌, ◌*◌, ◌-◌, refl, String, List, [], ◌∷◌, arith, fetchone, All}
use markland.RateLimit.{Tier, RateLimiter, has_key, check, new_limiter}
use markland.RateLimit.Requests.{Request, after, granted, Fits, IsTimed, HasTier}
use markland.RateLimit.Room.{room_of, check-Fits}
use markland.RateLimit.Credit.{
  credit, mul-sub, AreOf, AreOf-later, check-AreOf, credit-later, request_step, credit-bound,
}

module _ (key : String) (tier : Tier) (default : ℕ × ℕ) where
  IsTimed-le : (start end : ℕ) (requests : List Request) → IsTimed start end requests → start ≤ end
  IsTimed-le start end [] h = h
  IsTimed-le start end (r ∷ requests) h = omega (arith, h.0, IsTimed-le r.at end requests h.1)

  pub granted-credit :
      (requests : List Request) (time end : ℕ) (l : RateLimiter)
      → IsTimed time end requests
      → All (HasTier key tier) requests
      → Fits l requests
      → AreOf key tier default time l
      → granted key requests l * default.1
        ≤ credit time default (fetchone (has_key key) l.buckets) + (end - time) * default.0
  granted-credit [] time end l timed tiers fits k = omega arith
  granted-credit (r ∷ requests) time end l timed tiers fits k =
      let next = (check r.key r.tier r.at l).1 in
      let rest =
        granted-credit requests r.at end next timed.1 tiers.1 (check-Fits r requests l fits)
          (check-AreOf key tier default r time l tiers.0 timed.0 k) in
      let step =
        request_step key tier default r l tiers.0 (room_of r requests l fits)
          (AreOf-later key tier default time r.at l timed.0 k) in
      let gain =
        credit-later key tier default time r.at l (fetchone (has_key key) l.buckets) refl timed.0
          k in
      let whole = mul-sub time r.at end default.0 timed.0 (IsTimed-le r.at end requests timed.1) in
      omega (arith, rest, step, gain, whole)

  after-AreOf :
      (requests : List Request) (time end : ℕ) (l : RateLimiter)
      → IsTimed time end requests
      → All (HasTier key tier) requests
      → AreOf key tier default time l
      → AreOf key tier default end (after requests l)
  after-AreOf [] time end l timed tiers k = AreOf-later key tier default time end l timed k
  after-AreOf (r ∷ requests) time end l timed tiers k =
      after-AreOf requests r.at end (check r.key r.tier r.at l).1 timed.1 tiers.1
        (check-AreOf key tier default r time l tiers.0 timed.0 k)

-- A key that is checked under one tier gets at most its capacity and what the time refills. After any
-- checks of a new limiter, and with the clock never going back, as many requests of the key are allowed
-- among those made from a time on, up to another, as the capacity and the refill of the time between
-- amount to, if the keys that are tracked and those that are added fit into max_keys. The numbers are
-- counted in parts of a token: a request costs the period, the capacity is capacity times period, and
-- each microsecond refills the capacity.
pub granted-budget :
    (defaults : Tier → ℕ × ℕ) (max_keys : ℕ) (key : String) (tier : Tier)
    (earlier requests : List Request) (start end : ℕ)
    → IsTimed 0 start earlier
    → IsTimed start end requests
    → All (HasTier key tier) earlier
    → All (HasTier key tier) requests
    → Fits (after earlier (new_limiter defaults max_keys)) requests
    → granted key requests (after earlier (new_limiter defaults max_keys)) * (defaults tier).1
      ≤ (defaults tier).0 * (defaults tier).1 + (end - start) * (defaults tier).0
granted-budget defaults max_keys key tier earlier requests start end before timed tiers same fits =
    let l = after earlier (new_limiter defaults max_keys) in
    let k =
      after-AreOf key tier (defaults tier) earlier 0 start (new_limiter defaults max_keys) before
        tiers (refl, tt) in
    omega (
      arith,
      granted-credit key tier (defaults tier) requests start end l timed same fits k,
      credit-bound key tier (defaults tier) start l (fetchone (has_key key) l.buckets) refl k,
    )
