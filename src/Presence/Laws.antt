-- ===== src/Presence/Laws.antt =====
-- What setting, clearing and collecting presence rows does to those that are seen.
use markland.Prelude.{
  if◌then◌else◌, inl, inr, ◌&&◌, ℕ, ◌≤◌, String, true, false, Option, none, some, List, [], ◌∷◌,
  ◌≡◌, refl, ap, arith, ◌==◌, eq_iff, eq_refl, Bool, select, delete_where,
  fetchone-upsert_where_self, fetchone-upsert_where_ne, fetchone-delete_where,
  fetchone-delete_where_same, map, order_desc, subst, Bool-cases, fetchone, Option-cases, is_some,
}
use markland.Model.{Principal, Activity, Presence, Db, whole_second}
use markland.Effects.{Conn, ok}
use markland.Presence.{
  activity_of, is_at, get_presence, presence_row, excluded_presence, PresenceSet, set_status,
  clear_status, is_present, is_stale, list_active, gc_expired, active_principal, put_presence,
  get_document,
}

select-delete_where :
    (p q : Presence → Bool) (rows : List Presence)
    → ((r : Presence) → p r ≡ true → q r ≡ false)
    → select p (delete_where q rows) ≡ select p rows
unfolding select delete_where
select-delete_where p q [] other = refl
select-delete_where p q (r ∷ rows) other =
    ground (arith, other r, select-delete_where p q rows other)

whole_second_mono : (a b : ℕ) → a ≤ b → whole_second a ≤ whole_second b
whole_second_mono a b h = omega (arith, h)

-- The collection of expired rows is not seen: from then on every document shows who it would have
-- shown without it.
pub gc_expired-list_active :
    (now later : ℕ) (doc_id : String) (c : Conn)
    → now ≤ later
    → list_active (gc_expired now c).1.db doc_id later ≡ list_active c.db doc_id later
unfolding list_active gc_expired
gc_expired-list_active now later doc_id c h =
    ap (λ rows. map (active_principal c.db) (order_desc (λ p. p.updated_at) rows))
      (select-delete_where (is_present doc_id later) (is_stale now) c.db.presence
        (λ r shown. ground (arith, shown, whole_second_mono now later h)))

module _ (db : Db) (new : Presence) where
  same_place :
      (p : Presence) → is_at new.doc_id new.principal_id p ≡ true → excluded_presence new p ≡ new
  same_place p hit =
      ground (arith, eq_iff p.doc_id new.doc_id, eq_iff p.principal_id new.principal_id)

  put_presence_same : get_presence (put_presence new db) new.doc_id new.principal_id ≡ some new
  put_presence_same =
      fetchone-upsert_where_self (is_at new.doc_id new.principal_id) (excluded_presence new) new
        db.presence (λ p. refl) same_place
        (ground (arith, eq_refl new.doc_id, eq_refl new.principal_id))

  module _ (d q : String) where
    other_place :
        is_at d q new ≡ false
        → (p : Presence) → is_at d q p ≡ true
        → is_at new.doc_id new.principal_id p ≡ false
    other_place other p hit = ground (
      arith,
      eq_iff p.doc_id d,
      eq_iff p.principal_id q,
      eq_iff p.doc_id new.doc_id,
      eq_iff p.principal_id new.principal_id,
      eq_iff new.doc_id d,
      eq_iff new.principal_id q,
    )

    put_presence_there :
        new.doc_id ≡ d → new.principal_id ≡ q → get_presence (put_presence new db) d q ≡ some new
    put_presence_there at_doc at_principal =
        subst (λ j. get_presence (put_presence new db) j q ≡ some new) at_doc
          (subst (λ j. get_presence (put_presence new db) new.doc_id j ≡ some new) at_principal
            put_presence_same)

    get_presence-put_presence :
        get_presence (put_presence new db) d q
        ≡ (if is_at d q new then some new else get_presence db d q)
    get_presence-put_presence = elim (Bool-cases (is_at d q new)) [
      | inl hit ↦ rw hit (
          put_presence_there (ground (arith, hit, eq_iff new.doc_id d))
            (ground (arith, hit, eq_iff new.principal_id q)))
      | inr miss ↦ rw miss (
          fetchone-upsert_where_ne (is_at new.doc_id new.principal_id) (excluded_presence new) new
            db.presence (is_at d q) (λ p. refl) (other_place miss) miss)
    ]

-- Whoever sets a status that is accepted has one presence row at the document, with that status, the
-- note and an expiry ten minutes on; whoever else is anywhere, and everything but presence, is as
-- before.
pub set_status-presence :
    (now : ℕ) (doc_id : String) (principal : Principal) (status : String) (note : Option String)
    (c : Conn) (r : PresenceSet)
    → (set_status now doc_id principal status note c).0 ≡ ok r
    → (activity : Activity) × (activity_of status ≡ some activity)
      × ((set_status now doc_id principal status note c).1.db ≡ record c.db {
        presence = (set_status now doc_id principal status note c).1.db.presence;
      })
      × ((d q : String)
          → get_presence (set_status now doc_id principal status note c).1.db d q ≡ (
              if doc_id == d && principal.principal_id == q
              then some (presence_row now doc_id principal activity note)
              else get_presence c.db d q))
unfolding set_status
set_status-presence now doc_id principal status note c r h =
    elim (Option-cases (activity_of status)) [
      | inl e ↦ absurd (ground arith)
      | inr (activity, e) ↦ elim (Bool-cases (is_some (get_document c.db doc_id))) [
        | inl there ↦ (
          activity,
          e,
          rw (e, there) refl,
          λ d q.
              rw (e, there)
                (get_presence-put_presence c.db (presence_row now doc_id principal activity note) d
                  q),
        )
        | inr missing ↦ absurd (ground arith)
      ]
    ]

module _ (rows : List Presence) (a b d q : String) where
  same_key : (a == d && b == q) ≡ true → (p : Presence) → is_at d q p ≡ true → is_at a b p ≡ true
  same_key hit p at = ground (
    arith,
    eq_iff a d,
    eq_iff b q,
    eq_iff p.doc_id d,
    eq_iff p.principal_id q,
    eq_iff p.doc_id a,
    eq_iff p.principal_id b,
  )

  other_key : (a == d && b == q) ≡ false → (p : Presence) → is_at d q p ≡ true → is_at a b p ≡ false
  other_key miss p at = ground (
    arith,
    eq_iff a d,
    eq_iff b q,
    eq_iff p.doc_id d,
    eq_iff p.principal_id q,
    eq_iff p.doc_id a,
    eq_iff p.principal_id b,
  )

  fetchone-cleared :
      fetchone (is_at d q) (delete_where (is_at a b) rows)
      ≡ (if a == d && b == q then none else fetchone (is_at d q) rows)
  fetchone-cleared = elim (Bool-cases (a == d && b == q)) [
    | inl hit ↦ rw hit (fetchone-delete_where_same (is_at d q) (is_at a b) rows (same_key hit))
    | inr miss ↦ rw miss (fetchone-delete_where (is_at d q) (is_at a b) rows (other_key miss))
  ]

-- Clearing takes the principal's row at the document away, whether there was one or not, and no
-- other.
pub clear_status-presence :
    (doc_id : String) (principal : Principal) (c : Conn)
    → ((clear_status doc_id principal c).0 ≡ ok tt)
      × ((d q : String)
          → get_presence (clear_status doc_id principal c).1.db d q
            ≡ (if doc_id == d && principal.principal_id == q then none else get_presence c.db d q))
unfolding clear_status
clear_status-presence doc_id principal c =
    (refl, fetchone-cleared c.db.presence doc_id principal.principal_id)
