-- ===== src/Docs/Visibility/Rotation.antt =====
-- Who may change a document's visibility, and when its link changes.
use markland.Prelude.{String, Bool, some, ◌≡◌, refl, arith, not, ◌&&◌, if◌then◌else◌}
use markland.Model.{Principal, Document, Fresh}
use markland.Effects.{Conn, ok}
use markland.Db.Documents.{
  get_document, set_document, set_visibility as db_set_visibility, rotate_share_token,
}
use markland.Db.Documents.Laws.{get_document-set_document_self}
use markland.Docs.Visibility.{Visibility, set_visibility}

-- A change of visibility that returns sets the flag and the time, and replaces the share token by
-- the fresh one exactly if a public document becomes private: the link that was public is dead.
pub set_visibility-share_token :
    (fresh : Fresh) (base_url : String) (principal : Principal) (doc_id : String) (is_public : Bool)
    (c : Conn) (doc : Document) (v : Visibility)
    → get_document c.db doc_id ≡ some doc
    → (set_visibility fresh base_url principal doc_id is_public c).0 ≡ ok v
    → get_document (set_visibility fresh base_url principal doc_id is_public c).1.db doc_id
      ≡ some (record doc {
        is_public = is_public;
        updated_at = fresh.now;
        share_token = if doc.is_public && not is_public then fresh.share_token else doc.share_token;
      })
unfolding set_visibility db_set_visibility rotate_share_token
set_visibility-share_token fresh base_url principal doc_id is_public c doc v found h =
    ground (arith, shown, hidden)
  where
    shown :
        get_document
          (set_document doc_id
            (λ d. record d { is_public = is_public; updated_at = fresh.now })
            c.db)
          doc_id
        ≡ some (record doc { is_public = is_public; updated_at = fresh.now })
    shown =
        get_document-set_document_self c.db doc_id
          (λ d. record d { is_public = is_public; updated_at = fresh.now }) (λ d. refl) doc found

    hidden :
        get_document
          (set_document doc_id
            (λ d. record d { share_token = fresh.share_token })
            (set_document doc_id
              (λ d. record d { is_public = is_public; updated_at = fresh.now })
              c.db))
          doc_id
        ≡ some (record doc {
          is_public = is_public;
          updated_at = fresh.now;
          share_token = fresh.share_token;
        })
    hidden =
        get_document-set_document_self
          (set_document doc_id (λ d. record d { is_public = is_public; updated_at = fresh.now })
            c.db)
          doc_id (λ d. record d { share_token = fresh.share_token }) (λ d. refl)
          (record doc { is_public = is_public; updated_at = fresh.now }) shown
