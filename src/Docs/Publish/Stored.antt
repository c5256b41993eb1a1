-- ===== src/Docs/Publish/Stored.antt =====
-- What publish stores.
use markland.Prelude.{String, Bool, true, Option, none, some, ◌≡◌, ◌≢◌, arith}
use markland.Model.{Principal, Document, Fresh}
use markland.Effects.{Conn, ok}
use markland.Db.Documents.{get_document, insert_document, new_document}
use markland.Db.Documents.Laws.{get_document-add_document, get_document-add_document_ne}
use markland.Db.Audit.{record_audit}
use markland.Docs.Content.{
  validate_content_and_title, content_fits, resolve_owner_id, or_default, extract_title,
}
use markland.Docs.Publish.{Published, publish}

module _ (fresh : Fresh) (base_url : String) (principal : Principal) (content : String)
    (title : Option String) (public : Bool) (c : Conn) where
  abbrev pub published : Document
  published =
      new_document fresh fresh.doc_id (or_default title (extract_title content)) content
        fresh.share_token public (resolve_owner_id principal) none

  -- Whatever publish returns, it has stored: version 1 of the text under the fresh id, within the
  -- limit on its size, while every other document is as it was.
  pub publish-stored :
      (r : Published)
      → (publish fresh base_url principal content title public c).0 ≡ ok r
      → (r.id ≡ fresh.doc_id)
        × (content_fits (some content) ≡ true)
        × (get_document (publish fresh base_url principal content title public c).1.db r.id
            ≡ some published)
        × ((j : String)
            → j ≢ r.id
            → get_document (publish fresh base_url principal content title public c).1.db j
              ≡ get_document c.db j)
  unfolding publish insert_document record_audit validate_content_and_title
  publish-stored r h =
      let added = get_document-add_document c.db published in
      (
        ground arith,
        ground arith,
        ground (arith, added),
        λ j ne. ground (arith, get_document-add_document_ne c.db published j),
      )
