-- ===== src/Invites/Acceptance.antt =====
-- What accepting an invite does to grants and to the invite.
use markland.Prelude.{
  All, All-update_where, ℕ, ◌≤◌, String, true, false, none, some, [], ◌∷◌, ◌≡◌, ◌≢◌, refl, ◌∙◌, ap,
  arith, eq_iff, inl, inr, ◌⊎◌, Bool-cases, Option-cases,
}
use markland.Model.{Invite, Grant, PrincipalType, is_active, text, Db, Fresh}
use markland.Effects.{Conn, ok}
use markland.External.{External}
use markland.Db.Grants.{get_grant, put_grant}
use markland.Db.Grants.Laws.{get_grant-put_grant_self, get_grant-key}
use markland.Db.Audit.{record_audit, append_audit, audit_row}
use markland.Grants.Upsert.{grant_by_principal_id_lem, principal_type_of}
use markland.Invites.Create.{has_invite_id, user_principal}
use markland.Invites.Resolve.{resolve_invite}
use markland.Invites.Liveness.{resolve_invite_sound}
use markland.Invites.Accept.{
  level_order, level_at_least, suffices, remaining_after, set_remaining, record_accept,
  consume_invite, accept_invite,
}

pub user_type : principal_type_of "user" ≡ some PrincipalType.user
unfolding principal_type_of
user_type = refl

module _ (fresh : Fresh) (inv : Invite) (user_id : String) (c : Conn) where
  abbrev accept_row : Db → Db
  accept_row = append_audit (
      audit_row fresh "invite_accept" (user_principal user_id) (some inv.doc_id)
        (("invite_id", text inv.id) ∷ []))

  abbrev spent : Db
  spent = set_remaining inv.id (remaining_after inv) c.db

  abbrev invited : Grant
  invited = record {
    doc_id = inv.doc_id;
    principal_id = user_id;
    principal_type = PrincipalType.user;
    level = inv.level;
    granted_by = inv.created_by;
    granted_at = fresh.now;
  }

  consume_kept :
      suffices (get_grant c.db inv.doc_id user_id) inv.level ≡ true
      → consume_invite fresh inv user_id c
        ≡ (ok (get_grant c.db inv.doc_id user_id), record c { db = accept_row spent; saved = none })
  unfolding consume_invite record_accept record_audit
  consume_kept enough = ground arith

  consume_granted :
      suffices (get_grant c.db inv.doc_id user_id) inv.level ≡ false
      → consume_invite fresh inv user_id c
        ≡ (ok (some invited), record c { db = accept_row (put_grant invited spent); saved = none })
  unfolding consume_invite record_accept record_audit
  consume_granted short =
      let mid : Conn = record c { db = spent; saved = none } in
      rw short (
        ground (
          arith,
          grant_by_principal_id_lem fresh inv.doc_id user_id "user" inv.created_by
              PrincipalType.user inv.level mid user_type refl,
          get_grant-put_grant_self spent invited,
        ))

  -- What consuming an invite leaves behind, whichever way it goes.
  abbrev Outcome : Grant → Type 0
  Outcome g =
      ((consume_invite fresh inv user_id c).0 ≡ ok (some g))
      × (g.doc_id ≡ inv.doc_id)
      × (g.principal_id ≡ user_id)
      × (get_grant (consume_invite fresh inv user_id c).1.db inv.doc_id user_id ≡ some g)
      × (level_order inv.level ≤ level_order g.level)
      × ((e : Grant)
          → get_grant c.db inv.doc_id user_id ≡ some e
          → level_order e.level ≤ level_order g.level)

  kept-Outcome :
      (g : Grant)
      → get_grant c.db inv.doc_id user_id ≡ some g
      → level_at_least g.level inv.level ≡ true
      → Outcome g
  unfolding level_at_least
  kept-Outcome g found enough =
      let done = consume_kept (rw found enough) in
      let key = get_grant-key c.db inv.doc_id user_id g found in
      (
        ap (λ r. r.0) done ∙ ap ok found,
        key.0,
        key.1,
        rw done found,
        ground arith,
        λ e h. ground arith,
      )

  granted-Outcome : suffices (get_grant c.db inv.doc_id user_id) inv.level ≡ false → Outcome invited
  unfolding level_at_least
  granted-Outcome short =
      let done = consume_granted short in
      (
        ap (λ r. r.0) done,
        refl,
        refl,
        rw done (get_grant-put_grant_self spent invited),
        ground arith,
        λ e h. ground arith,
      )

  consume-Outcome : (g : Grant) × Outcome g
  consume-Outcome = elim (Option-cases (get_grant c.db inv.doc_id user_id)) [
    | inl e ↦ (invited, granted-Outcome (rw e refl))
    | inr (g, e) ↦ elim (Bool-cases (level_at_least g.level inv.level)) [
      | inl enough ↦ (g, kept-Outcome g e enough)
      | inr short ↦ (invited, granted-Outcome (rw e short))
    ]
  ]

  pub consume_spends : (consume_invite fresh inv user_id c).1.db.invites ≡ spent.invites
  consume_spends = elim (Bool-cases (suffices (get_grant c.db inv.doc_id user_id) inv.level)) [
    | inl enough ↦ ap (λ r. r.1.db.invites) (consume_kept enough)
    | inr short ↦ ap (λ r. r.1.db.invites) (consume_granted short)
  ]

  consume_devices :
      (consume_invite fresh inv user_id c).1.db.device_authorizations ≡ c.db.device_authorizations
  consume_devices = elim (Bool-cases (suffices (get_grant c.db inv.doc_id user_id) inv.level)) [
    | inl enough ↦ ap (λ r. r.1.db.device_authorizations) (consume_kept enough)
    | inr short ↦ ap (λ r. r.1.db.device_authorizations) (consume_granted short)
  ]

module _ (x : External) (fresh : Fresh) (token user_id : String) (c : Conn) where
  accept_resolved :
      (inv : Invite)
      → resolve_invite x c.db fresh.now token ≡ some inv
      → accept_invite x fresh token user_id c ≡ consume_invite fresh inv user_id c
  unfolding accept_invite
  accept_resolved inv h = ground arith

  accept_unresolved :
      resolve_invite x c.db fresh.now token ≡ none
      → accept_invite x fresh token user_id c ≡ (ok none, c)
  unfolding accept_invite
  accept_unresolved h = ground arith

pub accept_invite-device_authorizations :
    (x : External) (fresh : Fresh) (token user_id : String) (c : Conn)
    → (accept_invite x fresh token user_id c).1.db.device_authorizations
      ≡ c.db.device_authorizations
accept_invite-device_authorizations x fresh token user_id c =
    elim (Option-cases (resolve_invite x c.db fresh.now token)) [
      | inl none_live ↦
          ap (λ r. r.1.db.device_authorizations)
            (accept_unresolved x fresh token user_id c none_live)
      | inr (inv, e) ↦
          rw (accept_resolved x fresh token user_id c inv e) (consume_devices fresh inv user_id c)
    ]

-- Accepting never raises. It returns nothing, and changes nothing, for a token that resolves to no
-- invite. Otherwise it returns the user's grant on the invite's document as it is now stored, at the
-- invite's level or above, and never below the level of the grant that the user had before.
pub accept_invite-grants :
    (x : External) (fresh : Fresh) (token user_id : String) (c : Conn)
    → ((resolve_invite x c.db fresh.now token ≡ none)
        × (accept_invite x fresh token user_id c ≡ (ok none, c)))
      ⊎ ((inv : Invite) × (g : Grant) × (resolve_invite x c.db fresh.now token ≡ some inv)
          × ((accept_invite x fresh token user_id c).0 ≡ ok (some g))
          × (get_grant (accept_invite x fresh token user_id c).1.db inv.doc_id user_id ≡ some g)
          × (level_order inv.level ≤ level_order g.level)
          × ((e : Grant)
              → get_grant c.db inv.doc_id user_id ≡ some e
              → level_order e.level ≤ level_order g.level))
accept_invite-grants x fresh token user_id c =
    elim (Option-cases (resolve_invite x c.db fresh.now token)) [
      | inl none_live ↦ inl (none_live, accept_unresolved x fresh token user_id c none_live)
      | inr (inv, e) ↦
          let (g, outcome) = consume-Outcome fresh inv user_id c in
          let (done, doc, who, stored, level, kept) = outcome in
          let same = accept_resolved x fresh token user_id c inv e in
          inr (inv, g, e, rw same done, rw same stored, level, kept)
    ]

active_has_uses : (inv : Invite) (now : ℕ) → inv.uses_remaining ≡ 0 → is_active inv now ≡ false
unfolding is_active
active_has_uses inv now h = ground arith

-- the row of this id has no use left
abbrev Spent : Invite → Invite → Type 0
Spent inv r = r.id ≡ inv.id → r.uses_remaining ≡ 0

spent_rows :
    (fresh : Fresh) (inv : Invite) (user_id : String) (c : Conn)
    → inv.single_use ≡ true
    → All (Spent inv) (spent fresh inv user_id c).invites
spent_rows fresh inv user_id c single =
    All-update_where (Spent inv) (has_invite_id inv.id)
      (λ r. record r { uses_remaining = remaining_after inv }) c.db.invites
      (λ r hit same. rw single) (λ r miss same. ground (arith, eq_iff r.id inv.id))

-- Once a user has accepted a single-use invite, no token resolves to it at any time.
pub accept_invite-single_use :
    (x : External) (fresh : Fresh) (token user_id : String) (c : Conn) (inv : Invite)
    → resolve_invite x c.db fresh.now token ≡ some inv
    → inv.single_use ≡ true
    → (later : ℕ) (token' : String) (inv' : Invite)
    → resolve_invite x (accept_invite x fresh token user_id c).1.db later token' ≡ some inv'
    → inv'.id ≢ inv.id
accept_invite-single_use x fresh token user_id c inv resolved single later token' inv' h same =
    let found =
      resolve_invite_sound x (Spent inv) (accept_invite x fresh token user_id c).1.db later token'
        inv'
        (rw
          (accept_resolved x fresh token user_id c inv resolved, consume_spends fresh inv user_id c)
          (spent_rows fresh inv user_id c single))
        h in
    absurd (cc (active_has_uses inv' later (found.0 same), found.2))
