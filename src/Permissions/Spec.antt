-- ===== src/Permissions/Spec.antt =====
-- What check_permission promises: it grants an action exactly if the principal's right to the
-- document reaches it, and owner-level actions to nobody but the owning user.
use markland.Prelude.{
  ℕ, String, Bool, true, false, Option, none, some, ◌≡◌, ◌↔◌, arith, leb, eq_iff, holds,
  if◌then◌else◌,
}
use markland.Model.{Principal, PrincipalType, Level, Document, Db}
use markland.Effects.{Result, ok, err}
use markland.Db.Documents.{get_document}
use markland.Db.Grants.{get_grant}
use markland.Permissions.{
  Access, check_permission, get_user_grant, owner_id_for_principal, same_owner,
}

abbrev pub is_ok : {A : Type 0} → Result A → Bool
is_ok (ok a) = true
is_ok (err e) = false

-- view < edit < owner, and no right at all is 0
abbrev pub rank : Access → ℕ
rank Access.view = 1
rank Access.edit = 2
rank Access.owner = 3

abbrev pub level_rank : Level → ℕ
level_rank Level.view = 1
level_rank Level.edit = 2

abbrev pub public_rank : Document → ℕ
public_rank doc = if doc.is_public then 1 else 0

-- An agent's share of its owner's right, which stops at edit.
abbrev pub inherited_right : Db → Document → String → Option String → ℕ
inherited_right db doc doc_id none = public_rank doc
inherited_right db doc doc_id (some user_id) =
    if holds doc.owner_id user_id then 2 else elim (get_user_grant db doc_id user_id) [
      | some g ↦ level_rank g.level
      | none ↦ public_rank doc
    ]

abbrev pub right_without_grant : Db → Document → String → PrincipalType → Option String → ℕ
right_without_grant db doc doc_id PrincipalType.user user_id = public_rank doc
right_without_grant db doc doc_id PrincipalType.agent user_id =
    inherited_right db doc doc_id user_id

-- The principal's right to a document that is there.
abbrev pub document_right : Db → Principal → Document → String → ℕ
document_right db principal doc doc_id =
    if same_owner doc.owner_id (owner_id_for_principal principal)
    then 3
    else elim (get_grant db doc_id principal.principal_id) [
      | some g ↦ level_rank g.level
      | none ↦ right_without_grant db doc doc_id principal.principal_type principal.user_id
    ]

abbrev pub right : Db → Principal → String → ℕ
right db principal doc_id = elim (get_document db doc_id) [
  | none ↦ 0
  | some doc ↦ document_right db principal doc doc_id
]

-- An action is granted exactly if the principal's right to the document reaches it.
pub check_permission-right :
    (db : Db) (principal : Principal) (doc_id : String) (action : Access)
    → is_ok (check_permission db principal doc_id action)
      ≡ leb (rank action) (right db principal doc_id)
unfolding check_permission
check_permission-right db principal doc_id Access.view = ground arith
check_permission-right db principal doc_id Access.edit = ground arith
check_permission-right db principal doc_id Access.owner = ground arith

abbrev OwnedBy : Option String → PrincipalType → String → Type 0
OwnedBy owner_id principal_type principal_id =
    (principal_type ≡ PrincipalType.user) × (owner_id ≡ some principal_id)

same_owner_iff :
    (owner_id : Option String) (principal : Principal)
    → (same_owner owner_id (owner_id_for_principal principal) ≡ true)
      ↔ OwnedBy owner_id principal.principal_type principal.principal_id
unfolding owner_id_for_principal
same_owner_iff none principal = (λ h. ground arith, λ h. ground arith)
same_owner_iff (some o) principal = (
  λ h. ground (arith, eq_iff principal.principal_id o),
  λ h. ground (arith, eq_iff principal.principal_id o),
)

-- Owner-level actions are granted exactly to the user who owns the document: to no agent, whatever
-- its owner and its grants, and to no user by a grant.
pub check_permission-owner_iff :
    (db : Db) (principal : Principal) (doc : Document) (doc_id : String)
    → get_document db doc_id ≡ some doc
    → (is_ok (check_permission db principal doc_id Access.owner) ≡ true) ↔ (
        (principal.principal_type ≡ PrincipalType.user)
        × (doc.owner_id ≡ some principal.principal_id))
unfolding check_permission
check_permission-owner_iff db principal doc doc_id found = (
  λ h. ground (arith, same_owner_iff doc.owner_id principal),
  λ h. ground (arith, same_owner_iff doc.owner_id principal),
)
