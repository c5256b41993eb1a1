-- ===== src/Docs/Read.antt =====
-- service/docs.py: get, get_doc, share_link, get_by_share_token, user_has_owned_docs
use markland.Prelude.{String, Bool, Option, ◌==◌, ◌&&◌, holds, is_some, fetchone}
use markland.Model.{Principal, Document, Db}
use markland.Effects.{Action, ◌>>=◌, ◌>>◌, pure, reads, or_raise, not_found, assertion_error}
use markland.Db.Documents.{get_document}
use markland.Permissions.{Access, check_permission, document_text}
use markland.Docs.Content.{DocFull, doc_to_full, share_url}

-- the form that returns a dict
unfoldable pub get : Principal → String → String → Action DocFull
get principal doc_id base_url = do
  reads λ db. check_permission db principal doc_id Access.view
  doc ← reads λ db. or_raise (get_document db doc_id) assertion_error
  pure (doc_to_full doc base_url)

unfoldable pub get_doc : Principal → String → Action Document
get_doc principal doc_id = do
  reads λ db. check_permission db principal doc_id Access.view
  reads λ db. or_raise (get_document db doc_id) (not_found (document_text doc_id))

pub record ShareLink : Type 0 where
  pub share_url : String
  pub title : String

unfoldable pub share_link : String → Principal → String → Action ShareLink
share_link base_url principal doc_id = do
  reads λ db. check_permission db principal doc_id Access.view
  doc ← reads λ db. or_raise (get_document db doc_id) assertion_error
  pure (record { share_url = share_url base_url doc.share_token; title = doc.title })

-- The dict has the row's columns, so it is the row.
unfoldable pub get_by_share_token : Db → String → Option Document
get_by_share_token db share_token =
    fetchone (λ d. d.share_token == share_token && d.is_public) db.documents

unfoldable pub user_has_owned_docs : Db → String → Bool
user_has_owned_docs db user_id = is_some (fetchone (λ d. holds d.owner_id user_id) db.documents)
