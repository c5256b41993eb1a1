-- ===== src/Mcp/Sharing.antt =====
-- server.py: the tools for grants and invites
use mathlib.Core.Option
use markland.Prelude.{
  ℕ, String, Bool, false, Option, none, some, [], ◌∷◌, ◌==◌, ◌&&◌, is_some, holds, fetchone, strip,
  lower_eq, if◌then◌else◌,
}
use markland.Model.{Principal, Grant, Invite, Fresh, User, Db, text}
use markland.Effects.{
  Error, Result, ok, err, reads, gets, grant_target_not_found, agent_grants_not_supported,
  invalid_grant_level,
}
use markland.External.{External}
use markland.Paging.{Codec}
use markland.Permissions.{Access, check_permission}
use markland.Grants.Target.{has_at}
use markland.Grants.Share.{grant, Dispatcher}
use markland.Grants.Revoke.{revoke, Revoked}
use markland.Grants.Listing.{list_grants_paginated}
use markland.Invites.Create.{create_invite, CreatedInvite}
use markland.Invites.Revoke.{revoke_invite}
use markland.Invites.Listing.{InviteItem, list_for_doc_paginated}
use markland.Mcp.{
  Code, Outcome, done, failed, uncaught, Tool, ◌>>=◌, ◌>>◌, pure, tool_error, catching,
  access_error, require_principal,
}
use markland.Mcp.Envelopes.{ListEnvelope, list_envelope}

abbrev pub grant_error : {A : Type 0} → Error → Outcome A
grant_error (grant_target_not_found m) =
    failed Code.invalid_argument (("reason", text "target_not_found") ∷ [])
grant_error agent_grants_not_supported =
    failed Code.invalid_argument (("reason", text "agent_grants_not_supported") ∷ [])
grant_error invalid_grant_level =
    failed Code.invalid_argument (("reason", text "invalid_level") ∷ [])
grant_error e = access_error e

unfoldable pub grant_tool :
    External
    → Fresh
    → String
    → Dispatcher
    → Option Principal
    → String
    → String
    → String
    → Tool Grant
grant_tool x fresh base_url email_client ctx doc_id target level = do
  p ← require_principal ctx
  catching grant_error (grant x fresh base_url p doc_id target level email_client)

-- the owner's check that some tools make before they act
abbrev pub gate_owner : Principal → String → Tool (Unit {0})
gate_owner p doc_id = do
  catching access_error (reads λ db. check_permission db p doc_id Access.owner)
  pure tt

pub record RevokeAnswer : Type 0 where
  pub revoked : Bool
  pub doc_id : String
  pub principal_id : Option String

abbrev pub nothing_revoked : String → RevokeAnswer
nothing_revoked doc_id = record { revoked = false; doc_id = doc_id; principal_id = none }

abbrev pub revoke_answer : Revoked → RevokeAnswer
revoke_answer r = record {
  revoked = r.revoked;
  doc_id = r.doc_id;
  principal_id = some r.principal_id;
}

-- a missing grant is no error
abbrev pub revoke_outcome : String → Result Revoked → Outcome RevokeAnswer
revoke_outcome doc_id (ok r) = done (revoke_answer r)
revoke_outcome doc_id (err (Error.not_found m)) = done (nothing_revoked doc_id)
revoke_outcome doc_id (err e) = uncaught e

abbrev pub revoke_id : Fresh → Principal → String → Option String → Tool RevokeAnswer
revoke_id fresh p doc_id none c = (done (nothing_revoked doc_id), c)
revoke_id fresh p doc_id (some pid) c =
    let (r, c') = revoke fresh p doc_id pid c in (revoke_outcome doc_id r, c')

abbrev pub id_of : User → String
id_of u = u.id

-- the principal that a target names, or none for an email that is no user's
unfoldable pub revoke_target : Db → String → Option String
revoke_target db target =
    let pid = strip target in
    if has_at pid
    then Option.map id_of (fetchone (λ u. lower_eq u.email pid) db.users)
    else some pid

unfoldable pub revoke_tool : Fresh → Option Principal → String → String → Tool RevokeAnswer
revoke_tool fresh ctx doc_id target = do
  p ← require_principal ctx
  gate_owner p doc_id
  pid ← catching uncaught (gets λ db. revoke_target db target)
  revoke_id fresh p doc_id pid

unfoldable pub list_grants_tool :
    Codec → Option Principal → String → ℕ → Option String → Tool (ListEnvelope Grant)
list_grants_tool codec ctx doc_id limit cursor = do
  p ← require_principal ctx
  found ← catching access_error (list_grants_paginated codec p doc_id limit cursor 200)
  pure (list_envelope found.0 found.1)

unfoldable pub create_invite_tool :
    External
    → Fresh
    → String
    → Option Principal
    → String
    → String
    → Bool
    → Option ℕ
    → Tool CreatedInvite
create_invite_tool x fresh base_url ctx doc_id level single_use expires_in_days = do
  p ← require_principal ctx
  gate_owner p doc_id
  catching uncaught (
      create_invite x fresh doc_id p.principal_id level base_url single_use expires_in_days none "")

unfoldable pub list_invites_tool :
    Codec → Option Principal → String → ℕ → Option String → Tool (ListEnvelope InviteItem)
list_invites_tool codec ctx doc_id limit cursor = do
  p ← require_principal ctx
  gate_owner p doc_id
  found ← catching uncaught (reads λ db. list_for_doc_paginated codec db doc_id limit cursor)
  pure (list_envelope found.0 found.1)

-- `invites i JOIN documents d ON d.id = i.doc_id WHERE i.id = ? AND d.owner_id = ?`
abbrev pub is_on_owned_document : Db → String → String → Invite → Bool
is_on_owned_document db owner_id invite_id inv =
    inv.id == invite_id
    && is_some (fetchone (λ d. d.id == inv.doc_id && holds d.owner_id owner_id) db.documents)

abbrev pub owns_document : Db → String → Bool
owns_document db owner_id = is_some (fetchone (λ d. holds d.owner_id owner_id) db.documents)

abbrev pub exists_anywhere : Db → String → Bool
exists_anywhere db invite_id = is_some (fetchone (λ inv. inv.id == invite_id) db.invites)

-- the answer where the invite is on no document of the caller's
abbrev pub revoke_missing : Db → String → String → Tool String
revoke_missing db owner_id invite_id =
    if owns_document db owner_id
    then if exists_anywhere db invite_id then tool_error Code.not_found [] else pure invite_id
    else tool_error Code.not_found []

-- The answer is `{"revoked": True, "invite_id": …}`, of which the id is kept.
unfoldable pub revoke_invite_tool : Fresh → Option Principal → String → Tool String
revoke_invite_tool fresh ctx invite_id = do
  p ← require_principal ctx
  row ←
      catching uncaught
        (gets λ db. fetchone (is_on_owned_document db p.principal_id invite_id) db.invites)
  elim row [
    | none ↦ λ c. revoke_missing c.db p.principal_id invite_id c
    | some inv ↦ do catching uncaught (revoke_invite fresh invite_id p.principal_id); pure invite_id
  ]
