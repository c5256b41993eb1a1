-- ===== src/Invites/Revoke/Final.antt =====
-- What revoking an invite comes to.
use markland.Prelude.{
  All, All-update_where, ◌==◌, ℕ, String, true, false, Option, some, List, [], ◌∷◌, ◌≡◌, ◌≢◌, arith,
  is_some, fetchone, eq_iff, inl, inr, Bool-cases, Option-cases,
}
use markland.Model.{Invite, Fresh, is_active}
use markland.Effects.{Conn, ok}
use markland.External.{External}
use markland.Invites.Create.{has_invite_id}
use markland.Invites.Resolve.{resolve_invite}
use markland.Invites.Liveness.{resolve_invite_sound}
use markland.Invites.Revoke.{revoke_invite}

-- the row of this id is revoked
abbrev Dead : String → Invite → Type 0
Dead invite_id r = r.id ≡ invite_id → is_some r.revoked_at ≡ true

-- PRIMARY KEY (id): a row with this id is the one found
abbrev pub OneRow : Conn → String → Type 0
OneRow c invite_id =
    All (λ r. r.id ≡ invite_id → fetchone (has_invite_id invite_id) c.db.invites ≡ some r)
      c.db.invites

All-Dead :
    (invite_id : String) (inv : Invite) (o : Option Invite) (rows : List Invite)
    → o ≡ some inv
    → is_some inv.revoked_at ≡ true
    → All (λ r. r.id ≡ invite_id → o ≡ some r) rows
    → All (Dead invite_id) rows
All-Dead invite_id inv o [] found revoked h = tt
All-Dead invite_id inv o (r ∷ rows) found revoked h = (
  λ same. ground (arith, h.0 same, found, revoked),
  All-Dead invite_id inv o rows found revoked h.1,
)

dead_is_inactive : (r : Invite) (now : ℕ) → is_some r.revoked_at ≡ true → is_active r now ≡ false
unfolding is_active
dead_is_inactive r now h = ground arith

revoked_rows :
    (fresh : Fresh) (invite_id owner_user_id : String) (c : Conn)
    → OneRow c invite_id
    → (revoke_invite fresh invite_id owner_user_id c).0 ≡ ok tt
    → All (Dead invite_id) (revoke_invite fresh invite_id owner_user_id c).1.db.invites
unfolding revoke_invite
revoked_rows fresh invite_id owner_user_id c one h =
    elim (Option-cases (fetchone (has_invite_id invite_id) c.db.invites)) [
      | inl e ↦ absurd (ground arith)
      | inr (inv, e) ↦ elim (Bool-cases (inv.created_by == owner_user_id)) [
        | inr other ↦ absurd (ground (arith, e, other, h))
        | inl creator ↦ elim (Bool-cases (is_some inv.revoked_at)) [
          | inl already ↦
              rw (e, creator, already)
                (All-Dead invite_id inv (fetchone (has_invite_id invite_id) c.db.invites)
                  c.db.invites e already one)
          | inr live ↦
              rw (e, creator, live)
                (All-update_where (Dead invite_id) (has_invite_id invite_id)
                  (λ r. record r { revoked_at = some fresh.now }) c.db.invites
                  (λ r hit same. ground arith)
                  (λ r miss same. ground (arith, eq_iff r.id invite_id)))
        ]
      ]
    ]

-- After a revocation of an invite that returns, whether it was revoked before or not, no token
-- resolves to it at any time. The invite's id is taken to be that of one row.
pub revoke_invite-final :
    (x : External) (fresh : Fresh) (invite_id owner_user_id : String) (c : Conn) (later : ℕ)
    (token : String) (inv : Invite)
    → OneRow c invite_id
    → (revoke_invite fresh invite_id owner_user_id c).0 ≡ ok tt
    → resolve_invite x (revoke_invite fresh invite_id owner_user_id c).1.db later token ≡ some inv
    → inv.id ≢ invite_id
revoke_invite-final x fresh invite_id owner_user_id c later token inv one done resolved same =
    let found =
      resolve_invite_sound x (Dead invite_id) (revoke_invite fresh invite_id owner_user_id c).1.db
        later token inv (revoked_rows fresh invite_id owner_user_id c one done) resolved in
    absurd (cc (dead_is_inactive inv later (found.0 same), found.2))
