-- ===== src/Docs/Update/History.antt =====
-- What an update leaves in the revision history.
use markland.Prelude.{
  ℕ, ◌+◌, ◌-◌, ◌≤◌, String, Option, some, List, [], ◌∷◌, ◌++◌, ◌≡◌, refl, ap, subst, ◌∙◌, arith,
  eq_refl, length, drop, select, select-append, length-append, length-drop, inl, inr,
}
use markland.Model.{Principal, Document, Revision, Db, Fresh}
use markland.Effects.{Conn, ok}
use markland.Db.Documents.{get_document}
use markland.Db.Documents.Laws.{get_document-id}
use markland.Db.Revisions.{of_doc, append_revision, count_revisions}
use markland.Db.Revisions.Laws.{select-keep_last}
use markland.Docs.Update.{update, edited, max_revisions_per_doc}
use markland.Docs.Update.Outcome.{snapshot, updated_db}
use markland.Docs.Update.Concurrency.{IsIdle, update_cases}

abbrev pub history : Db → String → List Revision
history db doc_id = select (of_doc doc_id) db.revisions

history-append_revision :
    (db : Db) (doc_id : String) (r : Revision)
    → r.doc_id ≡ doc_id
    → history (append_revision r db) doc_id ≡ history db doc_id ++ r ∷ []
unfolding select
history-append_revision db doc_id r h = rw select-append (rw (h, eq_refl))

history-updated_db :
    (fresh : Fresh) (principal : Principal) (doc new : Document) (db : Db)
    → let all = history db doc.id ++ snapshot fresh principal doc db ∷ [] in
      history (updated_db fresh principal doc new db) doc.id
      ≡ drop (length (history db doc.id) + 1 - max_revisions_per_doc) all
history-updated_db fresh principal doc new db =
    let added = history-append_revision db doc.id (snapshot fresh principal doc db) refl in
    select-keep_last (of_doc doc.id) max_revisions_per_doc
      (append_revision (snapshot fresh principal doc db) db).revisions
    ∙ rw (added, length-append)

length_pruned :
    (r : Revision) (rs : List Revision)
    → length (drop (length rs + 1 - max_revisions_per_doc) (rs ++ r ∷ [])) ≤ max_revisions_per_doc
length_pruned r rs = omega (
  arith,
  length-drop (length rs + 1 - max_revisions_per_doc) (rs ++ r ∷ []),
  length-append rs (r ∷ []),
)

-- Outside a transaction, after an update that returns, the document's revisions are those from
-- before with the text from before the update behind them, less the oldest above fifty.
pub update-history :
    (fresh : Fresh) (doc_id : String) (principal : Principal) (content title : Option String)
    (if_version : ℕ) (c : Conn) (new : Document)
    → IsIdle c
    → (update fresh doc_id principal content title if_version c).0 ≡ ok new
    → (old : Document) × (get_document c.db doc_id ≡ some old)
      × (history (update fresh doc_id principal content title if_version c).1.db doc_id
          ≡ drop
              (length (history c.db doc_id) + 1 - max_revisions_per_doc)
              (history c.db doc_id ++ snapshot fresh principal old c.db ∷ []))
      × (count_revisions (update fresh doc_id principal content title if_version c).1.db doc_id
          ≤ max_revisions_per_doc)
unfolding count_revisions
update-history fresh doc_id principal content title if_version c new idle returned =
    elim (update_cases fresh doc_id principal content title if_version c idle) [
      | inl (old, found, current, done, stored, idle', revisions) ↦
          let by_id : old.id ≡ doc_id = get_document-id c.db doc_id old found in
          let kept = ap (select (of_doc doc_id)) revisions ∙ pruned old doc_id by_id in
          (
            old,
            found,
            kept,
            rw kept (length_pruned (snapshot fresh principal old c.db) (history c.db doc_id)),
          )
      | inr (e', refused) ↦ absurd (cc (ap (λ r. r.0) refused))
    ]
  where
    pruned :
        (old : Document) (j : String)
        → old.id ≡ j
        → history (updated_db fresh principal old (edited fresh content title old) c.db) j
          ≡ drop
              (length (history c.db j) + 1 - max_revisions_per_doc)
              (history c.db j ++ snapshot fresh principal old c.db ∷ [])
    pruned old j e =
        subst
          (λ i.
            history (updated_db fresh principal old (edited fresh content title old) c.db) i
            ≡ drop (length (history c.db i) + 1 - max_revisions_per_doc)
                (history c.db i ++ snapshot fresh principal old c.db ∷ []))
          e (history-updated_db fresh principal old (edited fresh content title old) c.db)
