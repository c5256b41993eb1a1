-- ===== src/Mcp/Hidden.antt =====
-- What the MCP tools disclose of a document to a caller that cannot view it.
use markland.Prelude.{
  ℕ, String, Bool, true, false, Option, none, some, [], ◌≡◌, refl, ◌∙◌, arith, fetchone, is_some,
}
use markland.Model.{Principal, PrincipalType, empty_db}
use markland.Effects.{Conn, err, not_found}
use markland.Permissions.{Access, check_permission, document_text}
use markland.Permissions.Spec.{is_ok}
use markland.Permissions.Disclosure.{hidden_document}
use markland.Docs.Read.{get, share_link}
use markland.Docs.Update.{update}
use markland.Docs.Delete.{delete}
use markland.Docs.Fork.Viewing.{fork_unviewable}
use markland.Grants.Share.{grant}
use markland.Grants.Upsert.{level_of}
use markland.Grants.Listing.{list_grants_paginated}
use markland.Presence.{activity_of}
use markland.Mcp.{Code, failed}
use markland.Mcp.Documents.{
  get_tool, share_tool, update_tool, delete_tool, fork_tool, revisions_tool,
}
use markland.Mcp.DocMeta.{doc_meta_tool}
use markland.Mcp.Sharing.{
  grant_tool, revoke_tool, list_grants_tool, create_invite_tool, list_invites_tool,
}
use markland.Mcp.Identity.{status_tool}
use markland.Mcp.Requests

module _ (s : Requests.Server) (p : Principal) (doc_id : String) (c : Conn) where
  -- a document that the caller cannot view
  abbrev IsHidden : Type 0
  IsHidden = is_ok (check_permission c.db p doc_id Access.view) ≡ false

  abbrev Denied : Access → Type 0
  Denied action = check_permission c.db p doc_id action ≡ err (not_found (document_text doc_id))

  hidden-Denied : (action : Access) → IsHidden → Denied action
  unfolding check_permission fetchone
  hidden-Denied action h = hidden_document c.db empty_db p doc_id action refl h ∙ refl

  get-hidden :
      Denied Access.view
      → Requests.handle s (some p) doc_id Requests.get_document c ≡ (failed Code.not_found [], c)
  unfolding Requests.handle get_tool get
  get-hidden h = rw h refl

  share-hidden :
      Denied Access.view
      → Requests.handle s (some p) doc_id Requests.share_document c ≡ (failed Code.not_found [], c)
  unfolding Requests.handle share_tool share_link
  share-hidden h = rw h refl

  delete-hidden :
      Denied Access.owner
      → Requests.handle s (some p) doc_id Requests.delete_document c ≡ (failed Code.not_found [], c)
  unfolding Requests.handle delete_tool delete
  delete-hidden h = rw h refl

  update-hidden :
      (if_version : ℕ) (content title : Option String)
      → Denied Access.edit
      → Requests.handle s (some p) doc_id (Requests.update_document if_version content title) c
        ≡ (failed Code.not_found [], c)
  unfolding Requests.handle update_tool update
  update-hidden if_version content title h = rw h refl

  flags-hidden :
      (public featured : Option Bool)
      → p.is_admin ≡ false
      → Denied Access.view
      → Requests.handle s (some p) doc_id (Requests.set_flags public featured) c
        ≡ (failed Code.not_found [], c)
  unfolding Requests.handle doc_meta_tool
  flags-hidden public featured user h = simp (user, h) refl

  grant-hidden :
      (target level : String)
      → is_some (level_of level) ≡ true
      → Denied Access.owner
      → Requests.handle s (some p) doc_id (Requests.grant_access target level) c
        ≡ (failed Code.not_found [], c)
  unfolding Requests.handle grant_tool grant
  grant-hidden target level valid h = ground (arith, valid, h)

  revoke-hidden :
      (target : String)
      → Denied Access.owner
      → Requests.handle s (some p) doc_id (Requests.revoke_access target) c
        ≡ (failed Code.not_found [], c)
  unfolding Requests.handle revoke_tool
  revoke-hidden target h = rw h refl

  list_access-hidden :
      (limit : ℕ) (cursor : Option String)
      → Denied Access.edit
      → Requests.handle s (some p) doc_id (Requests.list_access limit cursor) c
        ≡ (failed Code.not_found [], c)
  unfolding Requests.handle list_grants_tool list_grants_paginated
  list_access-hidden limit cursor h = rw h refl

  invite-hidden :
      (level : String) (single_use : Bool) (days : Option ℕ)
      → Denied Access.owner
      → Requests.handle s (some p) doc_id (Requests.invite level single_use days) c
        ≡ (failed Code.not_found [], c)
  unfolding Requests.handle create_invite_tool
  invite-hidden level single_use days h = rw h refl

  outstanding-hidden :
      (limit : ℕ) (cursor : Option String)
      → Denied Access.owner
      → Requests.handle s (some p) doc_id (Requests.list_outstanding limit cursor) c
        ≡ (failed Code.not_found [], c)
  unfolding Requests.handle list_invites_tool
  outstanding-hidden limit cursor h = rw h refl

  presence-hidden :
      (status : String) (remark : Option String)
      → is_some (activity_of status) ≡ true
      → Denied Access.view
      → Requests.handle s (some p) doc_id (Requests.set_presence (some status) remark) c
        ≡ (failed Code.not_found [], c)
  unfolding Requests.handle status_tool
  presence-hidden status remark valid h = rw (valid, h) refl

  user_type : (t : PrincipalType) → Requests.is_user t ≡ true → t ≡ PrincipalType.user
  user_type PrincipalType.user h = refl
  user_type PrincipalType.agent h = absurd (cc h)

  fork-hidden :
      (title : Option String)
      → Requests.is_user p.principal_type ≡ true
      → IsHidden
      → Requests.handle s (some p) doc_id (Requests.fork_document title) c
        ≡ (failed Code.not_found [], c)
  unfolding Requests.handle fork_tool
  fork-hidden title user h =
      rw (fork_unviewable s.fresh p doc_id s.base_url title c (user_type p.principal_type user) h)
        refl

  history-hidden :
      (limit : ℕ) (cursor : Option String)
      → Denied Access.view
      → Requests.handle s (some p) doc_id (Requests.list_history limit cursor) c
        ≡ (failed Code.not_found [], c)
  unfolding Requests.handle revisions_tool
  history-hidden limit cursor h = rw h refl

  -- Whoever cannot view a document and is no admin gets not_found from every tool that takes a doc_id, and
  -- no table, transaction or mail is changed: the document answers as a missing one does. The conditions are that the tool's other arguments are
  -- accepted, so that it comes to ask for the document, and that who asks for a fork is a user.
  pub handle-hidden :
      (request : Requests.Request)
      → Requests.asks_for_document p request ≡ true
      → p.is_admin ≡ false
      → is_ok (check_permission c.db p doc_id Access.view) ≡ false
      → Requests.handle s (some p) doc_id request c ≡ (failed Code.not_found [], c)
  handle-hidden Requests.get_document asks user h = get-hidden (hidden-Denied Access.view h)
  handle-hidden Requests.share_document asks user h = share-hidden (hidden-Denied Access.view h)
  handle-hidden Requests.delete_document asks user h = delete-hidden (hidden-Denied Access.owner h)
  handle-hidden (Requests.update_document if_version content title) asks user h =
      update-hidden if_version content title (hidden-Denied Access.edit h)
  handle-hidden (Requests.set_flags public featured) asks user h =
      flags-hidden public featured user (hidden-Denied Access.view h)
  handle-hidden (Requests.grant_access target level) asks user h =
      grant-hidden target level asks (hidden-Denied Access.owner h)
  handle-hidden (Requests.revoke_access target) asks user h =
      revoke-hidden target (hidden-Denied Access.owner h)
  handle-hidden (Requests.list_access limit cursor) asks user h =
      list_access-hidden limit cursor (hidden-Denied Access.edit h)
  handle-hidden (Requests.invite level single_use days) asks user h =
      invite-hidden level single_use days (hidden-Denied Access.owner h)
  handle-hidden (Requests.list_outstanding limit cursor) asks user h =
      outstanding-hidden limit cursor (hidden-Denied Access.owner h)
  handle-hidden (Requests.set_presence none remark) asks user h = ground (arith, asks)
  handle-hidden (Requests.set_presence (some status) remark) asks user h =
      presence-hidden status remark asks (hidden-Denied Access.view h)
  handle-hidden (Requests.fork_document title) asks user h = fork-hidden title asks h
  handle-hidden (Requests.list_history limit cursor) asks user h =
      history-hidden limit cursor (hidden-Denied Access.view h)
