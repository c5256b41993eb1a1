-- ===== src/Db/Documents/Laws.antt =====
-- What get_document sees after each write to the documents table.
use mathlib.Core.Option
use markland.Prelude.{
  String, none, some, [], ◌∷◌, ◌++◌, ◌≡◌, ◌≢◌, refl, ◌∙◌, arith, inl, inr, eq_iff, eq_refl, holds,
  fetchone, fetchone-append, fetchone-update_where, fetchone-delete_where_same, fetchone_sound,
  delete_where, if◌then◌else◌, Option-cases, fetchone_one,
}
use markland.Model.{Document, Db}
use markland.Db.Documents.{has_id, get_document, set_document, forget_document}

-- A document that is found has the id asked for.
pub get_document-id :
    (db : Db) (doc_id : String) (d : Document) → get_document db doc_id ≡ some d → d.id ≡ doc_id
get_document-id db doc_id d h =
    (eq_iff d.id doc_id).0 (fetchone_sound (has_id doc_id) db.documents d h)

module _ (db : Db) (doc_id : String) (f : Document → Document)
    (keeps_id : (d : Document) → (f d).id ≡ d.id) where
  get_document-set_document :
      (j : String)
      → get_document (set_document doc_id f db) j
        ≡ Option.map (λ d. if has_id doc_id d then f d else d) (get_document db j)
  get_document-set_document j =
      fetchone-update_where (has_id j) (has_id doc_id) f db.documents (λ d. rw (keeps_id d))

  pub get_document-set_document_self :
      (d : Document)
      → get_document db doc_id ≡ some d
      → get_document (set_document doc_id f db) doc_id ≡ some (f d)
  get_document-set_document_self d h =
      rw (get_document-set_document, h, get_document-id db doc_id d h, eq_refl)

  pub get_document-set_document_ne :
      (j : String) → j ≢ doc_id → get_document (set_document doc_id f db) j ≡ get_document db j
  get_document-set_document_ne j ne = elim (Option-cases (get_document db j)) [
    | inl e ↦ rw (get_document-set_document, e)
    | inr (d, e) ↦
        ground (arith, get_document-set_document j, get_document-id db j d e, eq_iff d.id doc_id)
  ]

pub get_document-forget_document :
    (db : Db) (doc_id : String) → get_document (forget_document doc_id db) doc_id ≡ none
get_document-forget_document db doc_id =
    fetchone-update_where (has_id doc_id) (λ d. holds d.forked_from_doc_id doc_id)
      (λ d. record d { forked_from_doc_id = none }) (delete_where (has_id doc_id) db.documents)
      (λ d. refl)
    ∙ rw (fetchone-delete_where_same (has_id doc_id) (has_id doc_id) db.documents (λ d h. h))

module _ (db : Db) (new : Document) where
  abbrev pub add_document : Db
  add_document = record db { documents = db.documents ++ new ∷ [] }

  pub get_document-add_document :
      get_document db new.id ≡ none → get_document add_document new.id ≡ some new
  unfolding fetchone
  get_document-add_document missing =
      ground
        (arith, missing, fetchone-append (has_id new.id) db.documents (new ∷ []), eq_refl new.id)

  pub get_document-add_document_ne :
      (j : String) → j ≢ new.id → get_document add_document j ≡ get_document db j
  get_document-add_document_ne j ne = elim (Option-cases (get_document db j)) [
    | inl e ↦ ground (
      arith,
      e,
      fetchone-append (has_id j) db.documents (new ∷ []),
      fetchone_one (has_id j) new,
      eq_iff new.id j,
    )
    | inr (d, e) ↦ ground (arith, e, fetchone-append (has_id j) db.documents (new ∷ []))
  ]
