-- ===== src/Tokens/Cache/Outcomes.antt =====
-- The ways that get and put can go.
use markland.Prelude.{
  ℕ, ◌+◌, String, false, none, some, ◌≡◌, refl, arith, ◌⊎◌, inl, inr, Option-cases, Bool-cases,
  fetchone, leb, ltb, ◌<◌,
}
use markland.Model.{Principal}
use markland.Tokens.Cache.{
  Entry, Cache, has_key, without, at_end, get, put, trim, after_generation, last_eviction,
}

pub get-cases :
    (now : ℕ) (key : String) (c : Cache)
    → (get now key c ≡ (none, c))
      ⊎ ((get now key c ≡ (none, without key c))
          ⊎ ((e : Entry) × (fetchone (has_key key) c.entries ≡ some e)
              × (now < e.expires_at)
              × (get now key c ≡ (some e.principal, at_end key e c))))
unfolding get
get-cases now key c = elim (Option-cases (fetchone (has_key key) c.entries)) [
  | inl e ↦ inl (ground (arith, e))
  | inr (r, e) ↦ elim (Bool-cases (leb r.expires_at now)) [
    | inl late ↦ inr (inl (ground (arith, e, late)))
    | inr early ↦ inr (inr (r, e, ground (arith, early), ground (arith, e, early)))
  ]
]

pub put-cases :
    (key : String) (principal : Principal) (generation read_at : ℕ) (c : Cache)
    → (put key principal generation read_at c ≡ c)
      ⊎ ((after_generation (last_eviction principal.principal_id c.evicted_at) generation ≡ false)
          × (put key principal generation read_at c
              ≡ trim (
                  at_end key
                    (record { key = key; expires_at = read_at + c.ttl; principal = principal })
                    c)))
unfolding put
put-cases key principal generation read_at c = elim (Bool-cases (ltb generation c.cleared_at)) [
  | inl cleared ↦ inl (rw cleared refl)
  | inr fresh ↦
      elim (Bool-cases
        (after_generation (last_eviction principal.principal_id c.evicted_at) generation)) [
          | inl evicted ↦ inl (rw (fresh, evicted) refl)
          | inr kept ↦ inr (kept, rw (fresh, kept) refl)
        ]
]
