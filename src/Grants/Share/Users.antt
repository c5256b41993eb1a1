-- ===== src/Grants/Share/Users.antt =====
-- What a grant to an email address gives: to a user a grant, to a stranger an invite.
use markland.Prelude.{String, Option, none, some, ◌≡◌, refl, arith}
use markland.Model.{Principal, PrincipalType, Level, Grant, User, Document, Fresh}
use markland.Effects.{Conn, ok}
use markland.External.{External}
use markland.Db.Grants.{get_grant, put_grant}
use markland.Db.Grants.Laws.{get_grant-put_grant_self}
use markland.Db.Audit.{record_audit}
use markland.Docs.Content.{share_url}
use markland.Grants.Upsert.{level_text, grant_by_principal_id, grant_by_principal_id_lem}
use markland.Grants.Target.{resolve_target, prior_level}
use markland.Grants.Share.{
  Dispatcher, notify_user, enqueue, grant_resolved, grant_user, grant_email,
}
use markland.Invites.Acceptance.{user_type}

abbrev pub user_grant : Fresh → Principal → Document → User → Level → Grant
user_grant fresh principal doc user level = record {
  doc_id = doc.id;
  principal_id = user.id;
  principal_type = PrincipalType.user;
  level = level;
  granted_by = principal.principal_id;
  granted_at = fresh.now;
}

-- A notice changes nothing but the outbox.
notify_user_keeps :
    (dispatcher : Dispatcher) (prior : Option Level) (level : Level) (email doc_id doc_url : String)
    (c : Conn)
    → ((notify_user dispatcher prior level email doc_id doc_url c).0 ≡ ok tt)
      × ((notify_user dispatcher prior level email doc_id doc_url c).1.db ≡ c.db)
unfolding notify_user enqueue
notify_user_keeps none prior level email doc_id doc_url c = ground arith
notify_user_keeps (some takes) prior level email doc_id doc_url c = ground arith

grant_user_lem :
    (fresh : Fresh) (principal : Principal) (doc : Document) (doc_url target : String) (user : User)
    (prior : Option Level) (level : Level) (dispatcher : Dispatcher) (c : Conn)
    → let after = grant_user fresh principal doc.id doc_url target user prior level dispatcher c in
      (after.0 ≡ ok (user_grant fresh principal doc user level))
      × (get_grant after.1.db doc.id user.id ≡ some (user_grant fresh principal doc user level))
      × (after.1.db.documents ≡ c.db.documents)
      × (after.1.db.invites ≡ c.db.invites)
unfolding grant_user record_audit
grant_user_lem fresh principal doc doc_url target user prior level dispatcher c = ground (
  arith,
  granted,
  get_grant-put_grant_self c.db new,
  notify_user_keeps dispatcher prior level user.email doc.id doc_url mid,
)
  where
    new : Grant
    new = user_grant fresh principal doc user level

    mid : Conn
    mid = record c { db = put_grant new c.db; saved = none }

    granted :
        grant_by_principal_id fresh doc.id user.id "user"
          (level_text level)
          principal.principal_id
          c
        ≡ (ok tt, mid)
    granted =
        grant_by_principal_id_lem fresh doc.id user.id "user" principal.principal_id
          PrincipalType.user level c user_type refl

module _ (x : External) (fresh : Fresh) (principal : Principal) (doc : Document)
    (base_url target : String) (level : Level) (dispatcher : Dispatcher) (c : Conn) where
  -- A grant to the email of a user returns the grant that it has stored, whatever the dispatcher
  -- does, and leaves documents and invites as they were.
  pub grant_email-user :
      (user : User)
      → resolve_target c.db target ≡ ok user
      → let after = grant_email x fresh principal doc base_url target level dispatcher c in
        (after.0 ≡ ok (user_grant fresh principal doc user level))
        × (get_grant after.1.db doc.id user.id ≡ some (user_grant fresh principal doc user level))
        × (after.1.db.documents ≡ c.db.documents)
        × (after.1.db.invites ≡ c.db.invites)
  unfolding grant_email grant_resolved
  grant_email-user user found = rw found (
      grant_user_lem fresh principal doc (share_url base_url doc.share_token) target user
        (prior_level c.db doc.id target) level dispatcher c)
