-- ===== src/Grants/Revoke/Effect.antt =====
-- What a revocation takes away.
use markland.Prelude.{String, none, some, ◌≡◌, refl, arith, not, ◌&&◌, is_some, if◌then◌else◌}
use markland.Model.{Principal, Document, Fresh}
use markland.Effects.{Conn, ok}
use markland.Db.Documents.{get_document, rotate_share_token}
use markland.Db.Documents.Laws.{get_document-set_document_self}
use markland.Db.Grants.{get_grant, delete_grant}
use markland.Db.Grants.Laws.{get_grant-delete}
use markland.Db.Audit.{record_audit}
use markland.Grants.Revoke.{Revoked, revoke}

-- After a revocation that returns, the principal has no grant on the document, the answer says
-- whether there was one, and the document is as it was but for its share token: a private document
-- from which a grant was taken has the fresh one.
pub revoke-effect :
    (fresh : Fresh) (principal : Principal) (doc_id principal_id : String) (c : Conn)
    (doc : Document) (r : Revoked)
    → get_document c.db doc_id ≡ some doc
    → (revoke fresh principal doc_id principal_id c).0 ≡ ok r
    → (get_grant (revoke fresh principal doc_id principal_id c).1.db doc_id principal_id ≡ none)
      × (r.revoked ≡ is_some (get_grant c.db doc_id principal_id))
      × (get_document (revoke fresh principal doc_id principal_id c).1.db doc_id
          ≡ some (record doc {
            share_token =
                if r.revoked && not doc.is_public then fresh.share_token else doc.share_token;
          }))
unfolding revoke delete_grant record_audit rotate_share_token
revoke-effect fresh principal doc_id principal_id c doc r found h =
    let rotated =
      get_document-set_document_self c.db doc_id (λ d. record d { share_token = fresh.share_token })
        (λ d. refl) doc found in
    (
      ground (arith, get_grant-delete c.db doc_id principal_id),
      ground arith,
      ground (arith, rotated),
    )
