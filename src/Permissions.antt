-- ===== src/Permissions.antt =====
-- service/permissions.py. Of an error's message only the part that does not depend on the data is kept,
-- but for the id in NotFound, by which a caller could tell two answers apart.
pub mod Spec
pub mod Disclosure
use Prim.Native.String.{◌++◌ as ◌+++◌}
use markland.Prelude.{
  String, Bool, true, false, Option, none, some, ◌==◌, ◌&&◌, holds, is_some, fetchone,
  if◌then◌else◌,
}
use markland.Model.{Principal, PrincipalType, Level, Grant, Document, Db}
use markland.Effects.{Result, ok, err, not_found, permission_denied}
use markland.Db.Documents.{get_document}
use markland.Db.Grants.{get_grant}

-- The actions that are asked for.
pub data Access : Type 0 where
  view edit owner : Access

-- Why access was granted.
pub data Tag : Type 0 where
  owner view edit public : Tag

-- `action in _LEVEL_TO_MAX_ACTION[level]`
unfoldable pub permits : Level → Access → Bool
permits Level.view Access.view = true
permits Level.view _ = false
permits Level.edit Access.owner = false
permits Level.edit _ = true

abbrev pub tag_of : Level → Tag
tag_of Level.view = Tag.view
tag_of Level.edit = Tag.edit

abbrev pub document_text : String → String
document_text doc_id = "document " +++ doc_id

unfoldable pub owner_id_for_principal : Principal → Option String
owner_id_for_principal principal = elim principal.principal_type [
  | PrincipalType.user ↦ some principal.principal_id
  | PrincipalType.agent ↦ none
]

-- `doc.owner_id is not None and owner_identity is not None and owner_identity == doc.owner_id`
abbrev pub same_owner : Option String → Option String → Bool
same_owner none identity = false
same_owner (some owner_id) identity = holds identity owner_id

abbrev pub is_user : PrincipalType → Bool
is_user PrincipalType.user = true
is_user PrincipalType.agent = false

-- The grant of the agent's owner, as the SELECT of step (3b) finds it.
unfoldable pub get_user_grant : Db → String → String → Option Grant
get_user_grant db doc_id user_id =
    fetchone (λ g. g.doc_id == doc_id && g.principal_id == user_id && is_user g.principal_type)
      db.grants

-- Steps (4) and (6): a public document, or a denial that hides the document.
unfoldable pub check_public : Document → String → Access → Result Tag
check_public doc doc_id action =
    if doc.is_public
    then elim action [
      | Access.view ↦ ok Tag.public
      | _ ↦ err (permission_denied "public doc only permits view")
    ]
    else err (not_found (document_text doc_id))

-- Step (3a): the agent's owner owns the document.
unfoldable pub check_owned_by_user : Access → Result Tag
check_owned_by_user Access.owner = err (permission_denied "re-auth as the owning user")
check_owned_by_user _ = ok Tag.owner

-- Step (3b): the agent's owner has a grant.
unfoldable pub check_inherited : Level → Access → Result Tag
check_inherited level Access.view = ok (tag_of level)
check_inherited Level.edit Access.edit = ok Tag.edit
check_inherited Level.view Access.edit = err (permission_denied "edit requires edit-level grant")
check_inherited level Access.owner =
    err (permission_denied "no owner-level action via inherited grant")

-- Step (2): a grant to the principal itself.
unfoldable pub check_direct : Level → Access → Result Tag
unfolding permits
check_direct level action =
    if permits level action
    then ok (tag_of level)
    else err (permission_denied "grant level does not permit action")

-- Step (3), and (4) and (6) behind it.
unfoldable pub check_agent : Db → Principal → Document → String → Access → Result Tag
unfolding check_owned_by_user check_inherited check_public get_user_grant
check_agent db principal doc doc_id action = elim principal.principal_type [
  | PrincipalType.user ↦ check_public doc doc_id action
  | PrincipalType.agent ↦ elim principal.user_id [
    | none ↦ check_public doc doc_id action
    | some user_id ↦
        if holds doc.owner_id user_id
        then check_owned_by_user action
        else elim (get_user_grant db doc_id user_id) [
          | some g ↦ check_inherited g.level action
          | none ↦ check_public doc doc_id action
        ]
  ]
]

-- The document is there.
unfoldable pub check_document : Db → Principal → Document → String → Access → Result Tag
unfolding check_agent check_direct owner_id_for_principal
check_document db principal doc doc_id action =
    if same_owner doc.owner_id (owner_id_for_principal principal)
    then ok Tag.owner
    else elim (get_grant db doc_id principal.principal_id) [
      | some g ↦ check_direct g.level action
      | none ↦ check_agent db principal doc doc_id action
    ]

unfoldable pub check_permission : Db → Principal → String → Access → Result Tag
unfolding check_document
check_permission db principal doc_id action = elim (get_document db doc_id) [
  | none ↦ err (not_found (document_text doc_id))
  | some doc ↦ check_document db principal doc doc_id action
]
