-- ===== src/Invites/Liveness.antt =====
-- Which invites a token resolves to.
use markland.Prelude.{
  All, All-select, ℕ, String, true, some, List, [], ◌∷◌, ◌≡◌, subst, arith, select, is_empty, inl,
  inr, Bool-cases,
}
use markland.Model.{Invite, is_active, Db}
use markland.External.{External}
use markland.Invites.Resolve.{is_live, scan, resolve_invite}

-- The WHERE clause of the services' queries and Invite.is_active agree.
pub is_live-eq-is_active : (inv : Invite) (now : ℕ) → is_live now inv ≡ is_active inv now
unfolding is_live is_active
is_live-eq-is_active inv now = ground arith

module _ (x : External) where
  scan_sound :
      (P : Invite → Type 0) (token : String) (now : ℕ) (rows : List Invite) (inv : Invite)
      → All P rows
      → scan x token now rows ≡ some inv
      → P inv × (x.verify_token token inv.token_hash ≡ true) × (is_active inv now ≡ true)
  unfolding scan
  scan_sound P token now [] inv h e = ground arith
  scan_sound P token now (row ∷ rows) inv h e =
      elim (Bool-cases (x.verify_token token row.token_hash)) [
        | inl v ↦ elim (Bool-cases (is_active row now)) [
          | inl a ↦
              let same : row ≡ inv = ground arith in
              subst
                (λ r. P r × (x.verify_token token r.token_hash ≡ true) × (is_active r now ≡ true))
                same (h.0, v, a)
          | inr a ↦ absurd (ground arith)
        ]
        | inr v ↦ scan_sound P token now rows inv h.1 (ground arith)
      ]

  -- What a token resolves to is a row that the token verifies against and that is active.
  pub resolve_invite_sound :
      (P : Invite → Type 0) (db : Db) (now : ℕ) (token : String) (inv : Invite)
      → All P db.invites
      → resolve_invite x db now token ≡ some inv
      → P inv × (x.verify_token token inv.token_hash ≡ true) × (is_active inv now ≡ true)
  unfolding resolve_invite
  resolve_invite_sound P db now token inv h e = elim (Bool-cases (is_empty token)) [
    | inl empty ↦ absurd (ground arith)
    | inr more ↦
        let found =
          scan_sound (λ r. P r × (is_live now r ≡ true)) token now (select (is_live now) db.invites)
            inv (All-select P (is_live now) db.invites h) (rw more at e) in
        (found.0.0, found.1, found.2)
  ]
