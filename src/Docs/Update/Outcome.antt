-- ===== src/Docs/Update/Outcome.antt =====
-- The outcome of an update in closed form.
use markland.Prelude.{ℕ, String, Option, none, some, [], ◌∷◌, ◌≡◌, ◌≢◌, refl, arith}
use markland.Model.{Principal, Document, Revision, Db, Fresh, number}
use markland.Effects.{Conn, ok, err, conflict_error}
use markland.Db.Documents.{get_document, set_document}
use markland.Db.Documents.Laws.{get_document-id, get_document-set_document_self}
use markland.Db.Revisions.{of_doc, append_revision, insert_revision, keep_last, prune_revisions}
use markland.Db.Audit.{record_audit, append_audit, audit_row}
use markland.Permissions.{Access, Tag, check_permission}
use markland.Docs.Content.{validate_content_and_title}
use markland.Docs.Update.{edited, write_update, try_update, update, max_revisions_per_doc}

-- the snapshot of the document before the update
abbrev pub snapshot : Fresh → Principal → Document → Db → Revision
snapshot fresh principal doc db = record {
  id = db.next_revision;
  doc_id = doc.id;
  version = doc.version;
  title = doc.title;
  content = doc.content;
  principal_id = some principal.principal_id;
  principal_type = some principal.principal_type;
  created_at = fresh.now;
}

-- the columns that the UPDATE sets
abbrev pub set_columns : Document → Document → Document
set_columns new d = record d {
  title = new.title;
  content = new.content;
  updated_at = new.updated_at;
  version = new.version;
}

abbrev pub updated_db : Fresh → Principal → Document → Document → Db → Db
updated_db fresh principal doc new db =
    let db' =
      set_document doc.id (set_columns new)
        (append_revision (snapshot fresh principal doc db) db) in
    record db' { revisions = keep_last (of_doc doc.id) max_revisions_per_doc db'.revisions }

module _ (fresh : Fresh) (principal : Principal) (content title : Option String) (c : Conn)
    (doc : Document) where
  write_update_lem :
      get_document c.db doc.id ≡ some doc
      → write_update fresh principal content title doc c ≡ (
        ok doc,
        record c {
          db = updated_db fresh principal doc (edited fresh content title doc) c.db;
          saved = none;
        },
      )
  unfolding write_update insert_revision prune_revisions
  write_update_lem found = ground arith

  pub get_document-updated_db :
      (new : Document)
      → get_document c.db doc.id ≡ some doc
      → get_document (updated_db fresh principal doc new c.db) doc.id ≡ some (set_columns new doc)
  get_document-updated_db new found =
      get_document-set_document_self c.db doc.id (set_columns new) (λ d. refl) doc found

module _ (fresh : Fresh) (doc_id : String) (principal : Principal) (content title : Option String)
    (if_version : ℕ) (c : Conn) (doc : Document) (tag : Tag) (idle : c.saved ≡ none)
    (allowed : check_permission c.db principal doc_id Access.edit ≡ ok tag)
    (valid : validate_content_and_title content title ≡ ok tt)
    (found : get_document c.db doc_id ≡ some doc) where
  -- A stale version is refused, with the stored version, title and text, and nothing is changed.
  pub update_stale :
      doc.version ≢ if_version
      → update fresh doc_id principal content title if_version c
        ≡ (err (conflict_error doc.version doc.title doc.content), c)
  unfolding update try_update
  update_stale stale = ground arith

  -- The current version: one snapshot, one new version, one audit row.
  pub update_current :
      doc.version ≡ if_version
      → let new = edited fresh content title doc in
        update fresh doc_id principal content title if_version c ≡ (
          ok new,
          record c {
            db =
                append_audit
                  (audit_row fresh "update" principal
                    (some doc_id)
                    (("new_version", number new.version) ∷ []))
                  (updated_db fresh principal doc new c.db);
            saved = none;
          },
        )
  unfolding update try_update record_audit
  update_current current =
      let by_id : doc.id ≡ doc_id = get_document-id c.db doc_id doc found in
      let at_id : get_document c.db doc.id ≡ some doc = simp by_id found in
      let begun : Conn = record c { saved = some c.db } in
      ground (
        arith,
        write_update_lem fresh principal content title begun doc at_id,
        get_document-updated_db fresh principal content title begun doc
            (edited fresh content title doc) at_id,
      )
