-- ===== src/Docs/Update/Concurrency.antt =====
-- What update promises to concurrent editors.
use markland.Prelude.{
  ℕ, String, Option, none, some, ◌≡◌, ◌≢◌, refl, sym, ap, subst, ◌∙◌, arith, ◌⊎◌, inl, inr,
  Bool-cases, Option-cases, nat_eq,
}
use markland.Model.{Principal, Document, Fresh}
use markland.Effects.{Conn, Result, ok, err, Error}
use markland.Db.Documents.{get_document}
use markland.Db.Documents.Laws.{get_document-id}
use markland.Permissions.{Access, Tag, check_permission}
use markland.Docs.Content.{validate_content_and_title}
use markland.Docs.Update.{edited, update}
use markland.Docs.Update.Outcome.{update_stale, update_current, updated_db, get_document-updated_db}

abbrev Result-view : {A : Type 0} → Result A → Type 0
Result-view {A} r = ((a : A) × (r ≡ ok a)) ⊎ ((e : Error) × (r ≡ err e))

Result-cases : {A : Type 0} (r : Result A) → Result-view r
Result-cases (ok a) = inl (a, refl)
Result-cases (err e) = inr (e, refl)

-- A connection outside a transaction.
abbrev pub IsIdle : Conn → Type 0
IsIdle c = c.saved ≡ none

module _ (fresh : Fresh) (doc_id : String) (principal : Principal) (content title : Option String)
    (if_version : ℕ) (c : Conn) where
  -- The ways that an update can go, each with its outcome.
  abbrev pub Current : Type 0
  Current =
      (doc : Document) × (get_document c.db doc_id ≡ some doc)
      × (doc.version ≡ if_version)
      × ((update fresh doc_id principal content title if_version c).0
          ≡ ok (edited fresh content title doc))
      × (get_document (update fresh doc_id principal content title if_version c).1.db doc_id
          ≡ some (edited fresh content title doc))
      × IsIdle (update fresh doc_id principal content title if_version c).1
      × ((update fresh doc_id principal content title if_version c).1.db.revisions
          ≡ (updated_db fresh principal doc (edited fresh content title doc) c.db).revisions)

  abbrev pub Refused : Type 0
  Refused = (e : Error) × (update fresh doc_id principal content title if_version c ≡ (err e, c))

  refused_by_check :
      (e : Error) → check_permission c.db principal doc_id Access.edit ≡ err e → Refused
  unfolding update
  refused_by_check e h = (e, ground arith)

  refused_by_limits :
      (tag : Tag) (e : Error)
      → check_permission c.db principal doc_id Access.edit ≡ ok tag
      → validate_content_and_title content title ≡ err e
      → Refused
  unfolding update
  refused_by_limits tag e allowed h = (e, ground arith)

  checked_document :
      (tag : Tag)
      → check_permission c.db principal doc_id Access.edit ≡ ok tag
      → get_document c.db doc_id ≢ none
  unfolding check_permission
  checked_document tag allowed missing = ground arith

  update_valid_cases :
      (tag : Tag) (doc : Document)
      → IsIdle c
      → check_permission c.db principal doc_id Access.edit ≡ ok tag
      → validate_content_and_title content title ≡ ok tt
      → get_document c.db doc_id ≡ some doc
      → Current ⊎ Refused
  update_valid_cases tag doc idle allowed valid found =
      elim (Bool-cases (nat_eq doc.version if_version)) [
        | inl same ↦
            let current : doc.version ≡ if_version = ground arith in
            let outcome =
              update_current fresh doc_id principal content title if_version c doc tag idle allowed
                valid found current in
            let by_id : doc.id ≡ doc_id = get_document-id c.db doc_id doc found in
            let new : Document = edited fresh content title doc in
            let stored : get_document (updated_db fresh principal doc new c.db) doc.id ≡ some new =
              get_document-updated_db fresh principal content title c doc new (simp by_id found) in
            inl (
              doc,
              found,
              current,
              ap (λ r. r.0) outcome,
              rw outcome (
                  subst (λ j. get_document (updated_db fresh principal doc new c.db) j ≡ some new)
                    by_id stored),
              ap (λ r. r.1.saved) outcome,
              ap (λ r. r.1.db.revisions) outcome,
            )
        | inr differs ↦ inr (
          _,
          update_stale fresh doc_id principal content title if_version c doc tag idle allowed valid
              found (ground arith),
        )
      ]

  pub update_cases : IsIdle c → Current ⊎ Refused
  update_cases idle = elim (Result-cases (check_permission c.db principal doc_id Access.edit)) [
    | inr (e, h) ↦ inr (refused_by_check e h)
    | inl (tag, allowed) ↦ elim (Result-cases (validate_content_and_title content title)) [
      | inr (e, h) ↦ inr (refused_by_limits tag e allowed h)
      | inl (u, valid) ↦ elim (Option-cases (get_document c.db doc_id)) [
        | inl missing ↦ absurd (checked_document tag allowed missing)
        | inr (doc, found) ↦ update_valid_cases tag doc idle allowed valid found
      ]
    ]
  ]

-- Outside a transaction, an update that raises leaves the connection as it was: no column, no
-- revision, no audit row, and no open transaction.
pub update-atomic :
    (fresh : Fresh) (doc_id : String) (principal : Principal) (content title : Option String)
    (if_version : ℕ) (c : Conn) (e : Error)
    → IsIdle c
    → (update fresh doc_id principal content title if_version c).0 ≡ err e
    → (update fresh doc_id principal content title if_version c).1 ≡ c
update-atomic fresh doc_id principal content title if_version c e idle failed =
    elim (update_cases fresh doc_id principal content title if_version c idle) [
      | inl (doc, found, current, done, stored, idle', revisions) ↦ absurd (cc)
      | inr (e', refused) ↦ ap (λ r. r.1) refused
    ]

-- Outside a transaction, an update that returns found the version that it was given, returns the
-- document with the new title, text and time and the next version, and this is what is now stored.
pub update-current :
    (fresh : Fresh) (doc_id : String) (principal : Principal) (content title : Option String)
    (if_version : ℕ) (c : Conn) (new : Document)
    → IsIdle c
    → (update fresh doc_id principal content title if_version c).0 ≡ ok new
    → (old : Document) × (get_document c.db doc_id ≡ some old)
      × (old.version ≡ if_version)
      × (new ≡ edited fresh content title old)
      × (get_document (update fresh doc_id principal content title if_version c).1.db doc_id
          ≡ some new)
update-current fresh doc_id principal content title if_version c new idle returned =
    elim (update_cases fresh doc_id principal content title if_version c idle) [
      | inl (old, found, current, done, stored, idle', revisions) ↦
          let same : new ≡ edited fresh content title old = cc in
          (old, found, current, same, stored ∙ ap some (sym same))
      | inr (e', refused) ↦ absurd (cc (ap (λ r. r.0) refused))
    ]

-- No update is lost: of two updates of one document that name the same version, the first outside a
-- transaction and the second right after it, the second does not return once the first has.
pub update-excludes_same_version :
    (fresh fresh' : Fresh) (doc_id : String) (principal principal' : Principal)
    (content title content' title' : Option String) (if_version : ℕ) (c : Conn)
    (new new' : Document)
    → IsIdle c
    → (update fresh doc_id principal content title if_version c).0 ≡ ok new
    → (update fresh' doc_id principal' content' title' if_version
        (update fresh doc_id principal content title if_version c).1).0
      ≢ ok new'
update-excludes_same_version fresh fresh' doc_id principal principal' content title content' title'
      if_version c new new' idle first second =
    elim (update_cases fresh doc_id principal content title if_version c idle) [
      | inl (old, found, current, done, stored, idle', revisions) ↦
          let q =
            update-current fresh' doc_id principal' content' title' if_version
              (update fresh doc_id principal content title if_version c).1 new' idle' second in
          let next : q.0 ≡ edited fresh content title old = cc (q.1, stored) in
          absurd (omega (arith, ap (λ (d : Document). d.version) next, current, q.2))
      | inr (e', refused) ↦ absurd (cc (ap (λ r. r.0) refused))
    ]
