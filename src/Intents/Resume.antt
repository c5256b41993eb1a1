-- ===== src/Intents/Resume.antt =====
-- What was signed is resumed.
use markland.Prelude.{
  ℕ, String, false, some, ◌≡◌, refl, arith, is_empty, Bool-cases, Option-cases, inl, inr,
}
use markland.Effects.{ok}
use markland.Intents.{
  Serializer, Loaded, RawIntent, PendingIntent, intent_action_of, issue_pending_intent,
  read_pending_intent,
}

-- The serializer reads what it signed, as long as that is not older than max_age.
abbrev pub Reads : {A : Type 0} → Serializer A → String → ℕ → ℕ → ℕ → Type 0
Reads {A} s secret issued now max_age =
    (a : A)
    → (s.loads secret now max_age (s.dumps secret issued a) ≡ Loaded.payload a)
      × (is_empty (s.dumps secret issued a) ≡ false)

-- An intent that was issued before a login is read back after it, within its age, with the action and
-- the share token that it was issued for.
pub issue_pending_intent-read :
    (s : Serializer RawIntent) (secret action share_token token : String) (issued now max_age : ℕ)
    → Reads s secret issued now max_age
    → issue_pending_intent s issued secret action share_token ≡ ok token
    → (intent : PendingIntent) × (read_pending_intent s now token secret max_age ≡ ok intent)
      × (intent_action_of action ≡ some intent.action)
      × (intent.share_token ≡ share_token)
unfolding issue_pending_intent read_pending_intent
issue_pending_intent-read s secret action share_token token issued now max_age reads h =
    let raw : RawIntent = (some action, some share_token) in
    elim (Option-cases (intent_action_of action)) [
      | inl unknown ↦ absurd (ground (arith, unknown, h))
      | inr (a, known) ↦ elim (Bool-cases (is_empty share_token)) [
        | inl empty ↦ absurd (ground (arith, known, empty, h))
        | inr full ↦ elim (Bool-cases (is_empty secret)) [
          | inl no_secret ↦ absurd (ground (arith, known, full, no_secret, h))
          | inr signed ↦
              let same : s.dumps secret issued raw ≡ token =
                ground (arith, known, full, signed, h) in
              (
                record { action = a; share_token = share_token },
                rw⁻¹ same (rw ((reads raw).1, signed, (reads raw).0, known, full) refl),
                known,
                refl,
              )
        ]
      ]
    ]
