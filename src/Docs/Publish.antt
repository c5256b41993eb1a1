-- ===== src/Docs/Publish.antt =====
-- service/docs.py: publish
pub mod Stored
use markland.Prelude.{
  ℕ, String, Bool, true, false, Option, none, some, List, [], ◌∷◌, is_some, not, ◌&&◌,
  if◌then◌else◌,
}
use markland.Model.{Principal, PrincipalType, Document, Meta, text, flag, Fresh}
use markland.Effects.{
  Action, Result, ok, err, ◌>>=◌, ◌>>◌, pure, raise, reads, guard, permission_error,
}
use markland.Db.Documents.{insert_document}
use markland.Db.Audit.{record_audit}
use markland.Docs.Content.{
  validate_content_and_title, extract_title, or_default, resolve_owner_id, share_url,
}

pub record Published : Type 0 where
  pub id : String
  pub title : String
  pub share_url : String
  pub is_public : Bool
  pub owner_id : Option String

-- `principal.principal_type == "agent" and principal.user_id is None`
abbrev pub is_service_agent : PrincipalType → Option String → Bool
is_service_agent PrincipalType.user user_id = false
is_service_agent PrincipalType.agent user_id = not (is_some user_id)

unfoldable pub publish :
    Fresh → String → Principal → String → Option String → Bool → Action Published
publish fresh base_url principal content title public = do
  reads λ _.
      guard (not (is_service_agent principal.principal_type principal.user_id))
        (permission_error "invalid_argument: service_agent_cannot_publish")
  reads λ _. validate_content_and_title (some content) title
  let resolved_title = or_default title (extract_title content)
  let owner_id = resolve_owner_id principal
  insert_document fresh fresh.doc_id resolved_title content fresh.share_token public owner_id none
  record_audit fresh "publish" principal (some fresh.doc_id)
      (("title", text resolved_title) ∷ ("is_public", flag public) ∷ [])
  pure (record {
    id = fresh.doc_id;
    title = resolved_title;
    share_url = share_url base_url fresh.share_token;
    is_public = public;
    owner_id = owner_id;
  })
