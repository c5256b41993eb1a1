-- ===== src/Invites/Resolve.antt =====
-- service/invites.py: resolve_invite and find_active_invite_for_email
use markland.Prelude.{
  ℕ, String, Bool, true, Option, none, some, List, [], ◌∷◌, ◌==◌, ◌&&◌, not, is_some, is_empty,
  select, order_desc, first, ltb, lower_eq, if◌then◌else◌,
}
use markland.Model.{Invite, is_active, Db}
use markland.External.{External}

-- `expires_at IS NULL OR expires_at > now`
abbrev pub unexpired : Option ℕ → ℕ → Bool
unexpired none now = true
unexpired (some t) now = ltb now t

-- `revoked_at IS NULL AND uses_remaining > 0 AND (expires_at IS NULL OR expires_at > now)`
unfoldable pub is_live : ℕ → Invite → Bool
is_live now inv =
    not (is_some inv.revoked_at) && ltb 0 inv.uses_remaining && unexpired inv.expires_at now

unfoldable pub find_active_invite_for_email : Db → ℕ → String → String → Option Invite
find_active_invite_for_email db now doc_id target_email =
    if is_empty target_email
    then none
    else first (
        order_desc (λ inv. inv.created_at)
          (select
            (λ inv.
              inv.doc_id == doc_id && lower_eq inv.target_email target_email && is_live now inv)
            db.invites))

module _ (x : External) where
  -- the loop over the live rows
  unfoldable pub scan : String → ℕ → List Invite → Option Invite
  scan token now [] = none
  scan token now (inv ∷ rows) =
      let rest = scan token now rows in
      if x.verify_token token inv.token_hash
      then if is_active inv now then some inv else none
      else rest

  unfoldable pub resolve_invite : Db → ℕ → String → Option Invite
  resolve_invite db now token =
      if is_empty token then none else scan token now (select (is_live now) db.invites)
