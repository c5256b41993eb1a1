-- ===== src/Docs/Fork/Viewing.antt =====
-- user_can_view against check_permission, and the transaction that a fork leaves open.
use markland.Prelude.{
  ℕ, String, true, false, ◌||◌, ◌∙◌, inl, inr, Option-cases, Option, none, some, ◌≡◌, refl, ap,
  arith, eq_iff, is_some, holds,
}
use markland.Model.{Principal, PrincipalType, Document, Db, Fresh}
use markland.Effects.{Conn, ok, err, operational_error, not_found}
use markland.Db.Documents.{get_document, insert_document}
use markland.Db.Documents.Laws.{get_document-id}
use markland.Db.Revisions.{insert_revision}
use markland.Db.Grants.{get_grant}
use markland.Permissions.{same_owner, Access, Tag, check_permission, document_text}
use markland.Permissions.Spec.{is_ok}
use markland.Docs.Content.{validate_content_and_title, resolve_owner_id}
use markland.Docs.Update.{update}
use markland.Docs.Fork.{user_can_view, fork_document, fork}

owner_test :
    (owner_id : Option String) (p : String) → holds owner_id p ≡ same_owner owner_id (some p)
owner_test none p = refl
owner_test (some o) p = ground (arith, eq_iff o p, eq_iff p o)

-- For a user, user_can_view and check_permission agree on who may view a stored document.
pub user_can_view-check_permission :
    (db : Db) (principal : Principal) (doc : Document) (doc_id : String)
    → principal.principal_type ≡ PrincipalType.user
    → get_document db doc_id ≡ some doc
    → user_can_view db doc principal.principal_id
      ≡ is_ok (check_permission db principal doc_id Access.view)
unfolding user_can_view check_permission
user_can_view-check_permission db principal doc doc_id user found =
    ground (arith, owner_test doc.owner_id principal.principal_id, by_id)
  where
    by_id : get_grant db doc.id principal.principal_id ≡ get_grant db doc_id principal.principal_id
    by_id = ap (λ i. get_grant db i principal.principal_id) (get_document-id db doc_id doc found)

-- A user who cannot view a document and forks it is answered as if it were missing.
pub fork_unviewable :
    (fresh : Fresh) (principal : Principal) (doc_id base_url : String) (title : Option String)
    (c : Conn)
    → principal.principal_type ≡ PrincipalType.user
    → is_ok (check_permission c.db principal doc_id Access.view) ≡ false
    → fork fresh principal doc_id base_url title c ≡ (err (not_found (document_text doc_id)), c)
unfolding fork fork_document resolve_owner_id user_can_view
fork_unviewable fresh principal doc_id base_url title c user hidden =
    elim (Option-cases (get_document c.db doc_id)) [
      | inl e ↦ ground (arith, user, e)
      | inr (doc, e) ↦
          let view : user_can_view c.db doc principal.principal_id ≡ false =
            user_can_view-check_permission c.db principal doc doc_id user e ∙ hidden in
          let stranger : holds doc.owner_id principal.principal_id ≡ false = ground (arith, view) in
          let closed : doc.is_public
                || holds doc.owner_id principal.principal_id
                || is_some (get_grant c.db doc.id principal.principal_id)
              ≡ false =
            view in
          ground (arith, user, e, stranger, closed)
    ]

-- A fork that returns leaves its transaction open: the revision that it inserts is not committed.
pub fork_document-leaves_transaction :
    (fresh : Fresh) (source : Document) (owner : String) (c : Conn) (new : Document)
    → (fork_document fresh source owner c).0 ≡ ok new
    → is_some (fork_document fresh source owner c).1.saved ≡ true
unfolding fork_document insert_document insert_revision
fork_document-leaves_transaction fresh source owner c new h = ground arith

-- While a transaction is open, no update gets through: an editor with a valid edit of the current
-- version is refused with sqlite's OperationalError.
pub update_in_transaction :
    (fresh : Fresh) (doc_id : String) (principal : Principal) (content title : Option String)
    (if_version : ℕ) (c : Conn) (tag : Tag)
    → is_some c.saved ≡ true
    → check_permission c.db principal doc_id Access.edit ≡ ok tag
    → validate_content_and_title content title ≡ ok tt
    → update fresh doc_id principal content title if_version c ≡ (err operational_error, c)
unfolding update
update_in_transaction fresh doc_id principal content title if_version c tag open_tx allowed valid =
    ground arith
