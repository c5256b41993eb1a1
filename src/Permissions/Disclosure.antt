-- ===== src/Permissions/Disclosure.antt =====
-- What the errors of check_permission disclose: whether a document exists is told only to those who
-- can view it.
use markland.Prelude.{String, Bool, true, false, none, ◌≡◌, refl, ◌⊎◌, inl, inr, arith}
use markland.Model.{Principal, Db}
use markland.Effects.{Result, ok, err, not_found, permission_denied}
use markland.Permissions.{Access, Tag, check_permission}
use markland.Db.Documents.{get_document}
use markland.Permissions.Spec.{is_ok}

-- Whoever is refused with PermissionDenied can view the document.
pub permission_denied_discloses_to_viewers :
    (db : Db) (principal : Principal) (doc_id message : String) (action : Access)
    → check_permission db principal doc_id action ≡ err (permission_denied message)
    → is_ok (check_permission db principal doc_id Access.view) ≡ true
unfolding check_permission
permission_denied_discloses_to_viewers db principal doc_id message Access.view h = ground arith
permission_denied_discloses_to_viewers db principal doc_id message Access.edit h = ground arith
permission_denied_discloses_to_viewers db principal doc_id message Access.owner h = ground arith

-- To a principal that cannot view it, a document answers every action as a missing one does.
pub hidden_document :
    (db without : Db) (principal : Principal) (doc_id : String) (action : Access)
    → get_document without doc_id ≡ none
    → is_ok (check_permission db principal doc_id Access.view) ≡ false
    → check_permission db principal doc_id action ≡ check_permission without principal doc_id action
unfolding check_permission
hidden_document db without principal doc_id Access.view e h = ground arith
hidden_document db without principal doc_id Access.edit e h = ground arith
hidden_document db without principal doc_id Access.owner e h = ground arith

abbrev is_refusal : Result Tag → Bool
is_refusal (ok t) = true
is_refusal (err (not_found m)) = true
is_refusal (err (permission_denied m)) = true
is_refusal (err e) = false

check-is_refusal :
    (db : Db) (principal : Principal) (doc_id : String) (action : Access)
    → is_refusal (check_permission db principal doc_id action) ≡ true
unfolding check_permission
check-is_refusal db principal doc_id Access.view = ground arith
check-is_refusal db principal doc_id Access.edit = ground arith
check-is_refusal db principal doc_id Access.owner = ground arith

-- the two ways in which a check fails
abbrev pub IsRefused : Result Tag → Type 0
IsRefused r = (m : String) × ((r ≡ err (not_found m)) ⊎ (r ≡ err (permission_denied m)))

IsRefused-result : (r : Result Tag) → is_refusal r ≡ true → is_ok r ≡ false → IsRefused r
IsRefused-result (ok t) h k = absurd (cc k)
IsRefused-result (err (not_found m)) h k = (m, inl refl)
IsRefused-result (err (permission_denied m)) h k = (m, inr refl)
IsRefused-result (err e) h k = absurd (cc h)

-- A check that does not grant raises NotFound or PermissionDenied.
pub check-IsRefused :
    (db : Db) (principal : Principal) (doc_id : String) (action : Access)
    → is_ok (check_permission db principal doc_id action) ≡ false
    → IsRefused (check_permission db principal doc_id action)
check-IsRefused db principal doc_id action h =
    IsRefused-result (check_permission db principal doc_id action)
      (check-is_refusal db principal doc_id action) h
