-- ===== src/Rbac/Authorizer.antt =====
-- internal/domain/rbac/service/authorizer.go.
use firmflow.Base.{ℕ, String, Bool, ◌&&◌, not, str_eq, any, is_none, if◌then◌else◌}
use firmflow.Store.{◌>>=◌, ◌>>◌, pure, fail, guard, when_not_found, forbidden, bad_request}
use firmflow.Model.{Role, slug_owner}
use firmflow.Rbac.Repository.{Member, has_optional_id, get_membership_for_user}
use firmflow.Db.{Db}

unfoldable pub role_has_permission : Role → String → Bool
role_has_permission role permission_key = any (λ p. str_eq p.key permission_key) role.permissions

-- `AuthorizeProject`.
unfoldable pub authorize_project : ℕ → ℕ → String → Db Member
authorize_project project_id user_id permission_key = do
  m ← when_not_found (get_membership_for_user project_id user_id) forbidden
  guard (role_has_permission m.role permission_key) forbidden
  pure m

unfoldable pub is_owner_role : Role → Bool
is_owner_role role = role.is_predefined && str_eq role.slug slug_owner

unfoldable pub is_predefined_owner : Member → Bool
unfolding is_owner_role
is_predefined_owner m = is_owner_role m.role

unfoldable pub must_be_owner : Member → Db (Unit {0})
unfolding is_predefined_owner
must_be_owner m = guard (is_predefined_owner m) forbidden

unfoldable pub validate_assignable_role : ℕ → Role → Db (Unit {0})
validate_assignable_role project_id role =
    if role.is_predefined && is_none role.project_id
    then pure tt
    else if not role.is_predefined && has_optional_id role.project_id project_id
    then pure tt
    else fail (bad_request "role does not belong to this project")
