-- ===== src/Mcp/Requests.antt =====
-- server.py: the tools that take a doc_id, as requests to the server
use markland.Prelude.{ℕ, String, Bool, true, false, Option, none, some, is_some}
use markland.Model.{Principal, PrincipalType, Grant, Fresh}
use markland.External.{External}
use markland.Paging.{Codec}
use markland.Docs.Read.{ShareLink}
use markland.Docs.Delete.{Deleted}
use markland.Docs.Revisions.{RevisionItem}
use markland.Grants.Share.{Dispatcher}
use markland.Grants.Upsert.{level_of}
use markland.Presence.{activity_of}
use markland.Invites.Create.{CreatedInvite}
use markland.Invites.Listing.{InviteItem}
use markland.Mcp.{Tool, ◌>>=◌, pure}
use markland.Mcp.Envelopes.{DocEnvelope, ListEnvelope}
use markland.Mcp.Documents.{
  get_tool, share_tool, update_tool, delete_tool, fork_tool, revisions_tool,
}
use markland.Mcp.DocMeta.{doc_meta_tool}
use markland.Mcp.Sharing.{
  grant_tool, revoke_tool, list_grants_tool, create_invite_tool, list_invites_tool, RevokeAnswer,
}
use markland.Mcp.Identity.{status_tool, StatusAnswer}

-- what build_mcp closes over, and what a call draws from the clock and from `secrets`
pub record Server : Type 0 where
  pub external : External
  pub codec : Codec
  pub base_url : String
  pub email_client : Dispatcher
  pub fresh : Fresh

-- A tool that takes a doc_id, and its other arguments.
pub data Request : Type 0 where
  get_document share_document delete_document : Request
  update_document : ℕ → Option String → Option String → Request
  set_flags : Option Bool → Option Bool → Request
  grant_access : String → String → Request
  revoke_access : String → Request
  list_access : ℕ → Option String → Request
  invite : String → Bool → Option ℕ → Request
  list_outstanding : ℕ → Option String → Request
  set_presence : Option String → Option String → Request
  fork_document : Option String → Request
  list_history : ℕ → Option String → Request

pub data Response : Type 0 where
  document : DocEnvelope → Response
  link : ShareLink → Response
  gone : Deleted → Response
  granted : Grant → Response
  withdrawn : RevokeAnswer → Response
  access : ListEnvelope Grant → Response
  invited : CreatedInvite → Response
  outstanding : ListEnvelope InviteItem → Response
  presence : StatusAnswer → Response
  history : ListEnvelope RevisionItem → Response

-- answers an invalid level before it looks at the document, as the services do
abbrev pub has_valid_level : String → Bool
has_valid_level level = is_some (level_of level)

abbrev pub is_user : PrincipalType → Bool
is_user PrincipalType.user = true
is_user PrincipalType.agent = false

-- The requests whose other arguments are accepted, and that come to ask whether the caller may view the
-- document or do more with it. A fork by an agent asks for its owner instead.
abbrev pub asks_for_document : Principal → Request → Bool
asks_for_document p (grant_access target level) = has_valid_level level
asks_for_document p (set_presence none remark) = false
asks_for_document p (set_presence (some status) remark) = is_some (activity_of status)
asks_for_document p (fork_document title) = is_user p.principal_type
asks_for_document p _ = true

unfoldable pub handle : Server → Option Principal → String → Request → Tool Response
handle s ctx doc_id get_document = do r ← get_tool s.fresh s.base_url ctx doc_id; pure (document r)
handle s ctx doc_id share_document = do r ← share_tool s.base_url ctx doc_id; pure (link r)
handle s ctx doc_id delete_document = do r ← delete_tool s.fresh ctx doc_id; pure (gone r)
handle s ctx doc_id (update_document if_version content title) = do
  r ← update_tool s.fresh s.base_url ctx doc_id if_version content title
  pure (document r)
handle s ctx doc_id (set_flags public featured) = do
  r ← doc_meta_tool s.fresh s.base_url ctx doc_id public featured
  pure (document r)
handle s ctx doc_id (grant_access target level) = do
  r ← grant_tool s.external s.fresh s.base_url s.email_client ctx doc_id target level
  pure (granted r)
handle s ctx doc_id (revoke_access target) = do
  r ← revoke_tool s.fresh ctx doc_id target
  pure (withdrawn r)
handle s ctx doc_id (list_access limit cursor) = do
  r ← list_grants_tool s.codec ctx doc_id limit cursor
  pure (access r)
handle s ctx doc_id (invite level single_use expires_in_days) = do
  r ← create_invite_tool s.external s.fresh s.base_url ctx doc_id level single_use expires_in_days
  pure (invited r)
handle s ctx doc_id (list_outstanding limit cursor) = do
  r ← list_invites_tool s.codec ctx doc_id limit cursor
  pure (outstanding r)
handle s ctx doc_id (set_presence status remark) = do
  r ← status_tool s.fresh ctx doc_id status remark
  pure (presence r)
handle s ctx doc_id (fork_document title) = do
  r ← fork_tool s.fresh s.base_url ctx doc_id title
  pure (document r)
handle s ctx doc_id (list_history limit cursor) = do
  r ← revisions_tool s.external s.codec ctx doc_id limit cursor
  pure (history r)
