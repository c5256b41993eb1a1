-- ===== src/Tests/Access.antt =====
-- Who may do what with the sample documents.
use markland.Prelude.{true, some, ◌≡◌, ◌↔◌, refl, leb, fetchone}
use markland.Model.{PrincipalType}
use markland.Permissions.{Access, check_permission}
use markland.Permissions.Spec.{
  is_ok, rank, right, check_permission-right, check_permission-owner_iff,
}
use markland.Tests.Samples.{helper, plan, db}

check_permission-right_example :
    is_ok (check_permission db helper "plan" Access.owner)
    ≡ leb (rank Access.owner) (right db helper "plan")
check_permission-right_example = check_permission-right db helper "plan" Access.owner

check_permission-owner_iff_example :
    (is_ok (check_permission db helper "plan" Access.owner) ≡ true)
    ↔ ((helper.principal_type ≡ PrincipalType.user) × (plan.owner_id ≡ some helper.principal_id))
unfolding fetchone
check_permission-owner_iff_example = check_permission-owner_iff db helper plan "plan" refl
