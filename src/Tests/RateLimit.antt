-- ===== src/Tests/RateLimit.antt =====
-- Requests of two keys and of a third one to a limiter of three keys.
use markland.Prelude.{
  fetchone, update_where, delete_where, ℕ, ◌+◌, ◌-◌, ◌*◌, ◌≤◌, ◌≡◌, refl, arith, [], ◌∷◌,
}
use markland.RateLimit.{Tier, new_limiter, check, assign, drop_oldest, charged, refilled, decision}
use markland.RateLimit.Requests.{Request, after, granted}
use markland.RateLimit.Bound.{IsWithinBounds, after-bounds}
use markland.RateLimit.Budget.{granted-budget}

-- two requests per sixty microseconds
abbrev limits : Tier → ℕ × ℕ
limits tier = (2, 60)

abbrev of_alice : ℕ → Request
of_alice time = record { key = "user:usr_alice"; tier = Tier.user; at = time }

abbrev of_bob : ℕ → Request
of_bob time = record { key = "user:usr_bob"; tier = Tier.user; at = time }

-- the third request comes too soon
granted_twice :
    granted "user:usr_alice"
      (of_alice 5 ∷ of_bob 6 ∷ of_alice 7 ∷ of_alice 8 ∷ [])
      (new_limiter limits 3)
    ≡ 2
unfolding check assign drop_oldest charged refilled decision fetchone update_where delete_where
granted_twice = refl

granted-budget_example :
    granted "user:usr_alice"
        (of_alice 15 ∷ of_bob 16 ∷ of_alice 17 ∷ of_alice 48 ∷ [])
        (after (of_alice 5 ∷ of_bob 6 ∷ []) (new_limiter limits 3))
      * 60
    ≤ 2 * 60 + (50 - 10) * 2
unfolding check assign drop_oldest charged refilled decision fetchone update_where delete_where
granted-budget_example =
    granted-budget limits 3 "user:usr_alice" Tier.user (of_alice 5 ∷ of_bob 6 ∷ [])
      (of_alice 15 ∷ of_bob 16 ∷ of_alice 17 ∷ of_alice 48 ∷ []) 10 50 (omega arith) (omega arith)
      (λ h. refl, (λ h. refl, tt)) (λ h. refl, (λ h. refl, (λ h. refl, (λ h. refl, tt))))
      (omega arith)

after-bounds_example :
    IsWithinBounds (after (of_alice 5 ∷ of_bob 6 ∷ []) (new_limiter limits 1))
    × ((after (of_alice 5 ∷ of_bob 6 ∷ []) (new_limiter limits 1)).max_keys ≡ 1)
after-bounds_example =
    after-bounds (of_alice 5 ∷ of_bob 6 ∷ []) (new_limiter limits 1) (omega arith, tt)
