-- ===== src/Grants/Share.antt =====
-- service/grants.py: grant, with its branches for agents, users and unknown emails
pub mod Users
use Prim.Native.String.{◌++◌ as ◌+++◌}
use package.text.Mathlib.Text.{starts_with}
use markland.Prelude.{
  ℕ, String, Bool, true, false, Option, none, some, List, [], ◌∷◌, ◌++◌, ◌==◌, ◌&&◌, not, is_some,
  is_empty, strip, take_chars, if◌then◌else◌,
}
use markland.Model.{
  Principal, PrincipalType, OwnerType, Level, Grant, Agent, User, Document, Meta, text, flag, Db,
  Fresh,
}
use markland.Effects.{
  Action, Conn, Mail, Result, ok, err, Error, ◌>>=◌, ◌>>◌, pure, raise, reads, gets, guard,
  or_raise, invalid_grant_level, grant_target_not_found, not_found, assertion_error,
}
use markland.External.{External}
use markland.Db.Documents.{get_document}
use markland.Db.Grants.{get_grant}
use markland.Db.Audit.{record_audit}
use markland.Permissions.{Access, check_permission}
use markland.Docs.Content.{share_url}
use markland.Grants.Upsert.{level_of, level_text, grant_by_principal_id}
use markland.Grants.Target.{has_at, resolve_target, find_agent, find_user, prior_level}
use markland.Invites.Create.{create_invite}
use markland.Invites.Resolve.{find_active_invite_for_email}

-- Whether a dispatcher takes a mail; there may be no dispatcher.
abbrev pub Dispatcher : Type 0
Dispatcher = Option (Mail → Bool)

-- It never raises.
unfoldable pub enqueue : Dispatcher → Mail → Action (Unit {0})
enqueue none mail c = (ok tt, c)
enqueue (some takes) mail c =
    (ok tt, if takes mail then record c { outbox = c.outbox ++ mail ∷ [] } else c)

abbrev pub record_grant :
    Fresh → Principal → String → String → String → List (String × Meta) → Action (Unit {0})
record_grant fresh principal doc_id target level more =
    record_audit fresh "grant" principal (some doc_id)
      (("target", text target) ∷ ("level", text level) ∷ more)

-- Only a user-owned agent's owner gets mail.
unfoldable pub notify_agent_owner : Dispatcher → Agent → String → String → Action (Unit {0})
notify_agent_owner dispatcher agent doc_id doc_url = elim agent.owner_type [
  | OwnerType.service ↦ pure tt
  | OwnerType.user ↦ do
    owner ← gets λ db. find_user db agent.owner_id
    elim owner [
      | none ↦ pure tt
      | some u ↦
          enqueue dispatcher
            (record { to = u.email; template = "agent_grant"; doc_id = doc_id; link = doc_url })
    ]
]

unfoldable pub grant_agent :
    Fresh → Principal → String → String → String → String → Dispatcher → Action Grant
grant_agent fresh principal doc_id doc_url target level dispatcher = do
  agent ← reads λ db. or_raise (find_agent db target) (not_found ("agent_not_found: " +++ target))
  reads λ _. guard (not (is_some agent.revoked_at)) (not_found ("agent_revoked: " +++ target))
  grant_by_principal_id fresh doc_id agent.id "agent" level principal.principal_id
  row ← reads λ db. or_raise (get_grant db doc_id agent.id) assertion_error
  notify_agent_owner dispatcher agent doc_id doc_url
  record_grant fresh principal doc_id target level []
  pure row

-- what the recipient is told, if anything
abbrev pub user_template : Option Level → Level → Option String
user_template none level = some "user_grant"
user_template (some old) level =
    if level_text old == level_text level then none else some "user_grant_level_changed"

unfoldable pub notify_user :
    Dispatcher → Option Level → Level → String → String → String → Action (Unit {0})
notify_user dispatcher prior level email doc_id doc_url = elim (user_template prior level) [
  | none ↦ pure tt
  | some template ↦
      enqueue dispatcher
        (record { to = email; template = template; doc_id = doc_id; link = doc_url })
]

unfoldable pub grant_user :
    Fresh
    → Principal
    → String
    → String
    → String
    → User
    → Option Level
    → Level
    → Dispatcher
    → Action Grant
grant_user fresh principal doc_id doc_url target user prior level dispatcher = do
  grant_by_principal_id fresh doc_id user.id "user" (level_text level) principal.principal_id
  row ← reads λ db. or_raise (get_grant db doc_id user.id) assertion_error
  notify_user dispatcher prior level user.email doc_id doc_url
  record_grant fresh principal doc_id target (level_text level) []
  pure row

module _ (x : External) where
  -- an id of the shape that a user's id has, made from the email
  unfoldable pub synthetic_principal_id : String → String
  synthetic_principal_id target_email =
      "usr_"
      +++ take_chars 16
          (x.sha256_hex ("markland-synthetic-principal-v1" +++ x.lower (strip target_email)))

  -- a new invite, with its mail
  unfoldable pub send_invite :
      Fresh → Principal → Document → String → String → String → Dispatcher → Action String
  send_invite fresh principal doc base_url target_email level dispatcher = do
    created ←
        create_invite x fresh doc.id principal.principal_id level base_url true (some 7) none
          target_email
    enqueue dispatcher (record {
      to = target_email;
      template = "user_grant_invite";
      doc_id = doc.id;
      link = created.url;
    })
    pure created.id

  unfoldable pub grant_via_invite :
      Fresh → Principal → Document → String → String → Level → Dispatcher → Action Grant
  grant_via_invite fresh principal doc base_url target_email level dispatcher = do
    existing ← gets λ db. find_active_invite_for_email db fresh.now doc.id target_email
    invite_id ← elim existing [
      | some inv ↦ pure inv.id
      | none ↦ send_invite fresh principal doc base_url target_email (level_text level) dispatcher
    ]
    record_grant fresh principal doc.id target_email (level_text level) (
        ("via", text "invite")
        ∷ ("invite_id", text invite_id)
        ∷ ("deduped", flag (is_some existing))
        ∷ [])
    pure (record {
      doc_id = doc.id;
      principal_id = synthetic_principal_id target_email;
      principal_type = PrincipalType.user;
      level = level;
      granted_by = principal.principal_id;
      granted_at = fresh.now;
    })

  -- What follows `_resolve_target`, its `except GrantTargetNotFound` included.
  unfoldable pub grant_resolved :
      Fresh
      → Principal
      → Document
      → String
      → String
      → Level
      → Dispatcher
      → Option Level
      → Result User
      → Action Grant
  grant_resolved fresh principal doc base_url target level dispatcher prior (ok user) =
      grant_user fresh principal doc.id (share_url base_url doc.share_token) target user prior level
        dispatcher
  grant_resolved fresh principal doc base_url target level dispatcher prior
        (err (grant_target_not_found message)) =
      if has_at target
      then grant_via_invite fresh principal doc base_url target level dispatcher
      else raise (grant_target_not_found message)
  grant_resolved fresh principal doc base_url target level dispatcher prior (err e) = raise e

  unfoldable pub grant_email :
      Fresh → Principal → Document → String → String → Level → Dispatcher → Action Grant
  grant_email fresh principal doc base_url target level dispatcher = do
    prior ← gets λ db. prior_level db doc.id target
    found ← gets λ db. resolve_target db target
    grant_resolved fresh principal doc base_url target level dispatcher prior found

  unfoldable pub grant :
      Fresh → String → Principal → String → String → String → Dispatcher → Action Grant
  grant fresh base_url principal doc_id target level dispatcher = do
    parsed ← reads λ _. or_raise (level_of level) invalid_grant_level
    reads λ db. check_permission db principal doc_id Access.owner
    let target_str = strip target
    reads λ _. guard (not (is_empty target_str)) (grant_target_not_found "Grant target required.")
    doc ← reads λ db. or_raise (get_document db doc_id) assertion_error
    if starts_with target_str "agt_"
        then grant_agent fresh principal doc_id (share_url base_url doc.share_token) target_str
            level dispatcher
        else grant_email fresh principal doc base_url target_str parsed dispatcher
