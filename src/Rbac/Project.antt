-- ===== src/Rbac/Project.antt =====
-- internal/domain/rbac/service/project_service.go and project_policy.go: the members of a project
-- and its owner; Lifecycle has the project itself and invitations.
pub mod LastOwner
pub mod RoleChange
pub mod Lifecycle
pub mod Deleted
pub mod Invited
pub mod Transfer
use firmflow.Base.{
  ℕ, String, Bool, true, false, ◌&&◌, not, if◌then◌else◌, Option, some, none, is_some, leb,
}
use firmflow.Store.{
  ◌>>=◌, ◌>>◌, pure, fail, guard, catch, when_not_found, bad_request, not_found, conflict,
  forbidden,
}
use firmflow.Model.{Role, slug_owner, slug_admin}
use firmflow.Db.{Db, audit}
use firmflow.Rbac.Repository.{
  Member, get_project, get_predefined_role_by_slug, get_membership_for_user, get_role,
  update_membership_role, delete_membership, count_owners, transfer_ownership_rows,
}
use firmflow.Rbac.Authorizer.{
  authorize_project, is_owner_role, must_be_owner, validate_assignable_role,
}

unfoldable pub ensure_not_archived : ℕ → Db (Unit {0})
ensure_not_archived project_id = do
  p ← when_not_found (get_project project_id) (not_found "project not found")
  guard (not (is_some p.archived_at))
      (conflict "project_archived" "project is archived; unarchive to modify")

-- `if err != nil { return e }`: every error is turned into the one given.
abbrev pub or_else_fail : {A : Type 0} → Db A → Db A → Db A
or_else_fail m k = catch m (λ e. k)

-- The owners are counted, and one of at most one may not go.
unfoldable pub another_owner : ℕ → String → Db (Unit {0})
another_owner project_id message = do
  owner_role ← get_predefined_role_by_slug slug_owner
  n ← count_owners project_id owner_role.id
  guard (not (leb n 1)) (conflict "last_owner" message)

-- Only an owner makes owners.
unfoldable pub owner_acts : ℕ → ℕ → Role → Db (Unit {0})
owner_acts project_id actor_user_id new_role =
    if is_owner_role new_role
    then (get_membership_for_user project_id actor_user_id >>= must_be_owner)
    else pure tt

unfoldable pub keeps_an_owner : ℕ → Bool → String → Db (Unit {0})
unfolding another_owner
keeps_an_owner project_id gives_up message =
    if gives_up then another_owner project_id message else pure tt

unfoldable pub update_member_role : ℕ → ℕ → ℕ → ℕ → Db (Unit {0})
unfolding owner_acts keeps_an_owner ensure_not_archived
update_member_role actor_user_id project_id target_user_id new_role_id = do
  _ ← authorize_project project_id actor_user_id "member.update_role"
  ensure_not_archived project_id
  new_role ← or_else_fail (get_role new_role_id) (fail (bad_request "invalid role"))
  validate_assignable_role project_id new_role
  target_mem ←
      when_not_found (get_membership_for_user project_id target_user_id)
        (not_found "member not found")
  old_role ← get_role target_mem.membership.role_id
  owner_acts project_id actor_user_id new_role
  keeps_an_owner project_id (is_owner_role old_role && not (is_owner_role new_role))
      "cannot remove the last owner role"
  update_membership_role project_id target_user_id new_role_id
  audit actor_user_id "member.role_updated" project_id

unfoldable pub remove_member : ℕ → ℕ → ℕ → Db (Unit {0})
unfolding keeps_an_owner ensure_not_archived
remove_member actor_user_id project_id target_user_id = do
  _ ← authorize_project project_id actor_user_id "member.remove"
  ensure_not_archived project_id
  target_mem ←
      when_not_found (get_membership_for_user project_id target_user_id)
        (not_found "member not found")
  role ← get_role target_mem.membership.role_id
  keeps_an_owner project_id (is_owner_role role) "cannot remove the last owner"
  delete_membership project_id target_user_id
  audit actor_user_id "member.removed" project_id

unfoldable pub transfer_ownership : ℕ → ℕ → ℕ → Db (Unit {0})
unfolding ensure_not_archived
transfer_ownership actor_user_id project_id new_owner_user_id = do
  ensure_not_archived project_id
  actor_mem ← get_membership_for_user project_id actor_user_id
  must_be_owner actor_mem
  owner_role ← get_predefined_role_by_slug slug_owner
  admin_role ← get_predefined_role_by_slug slug_admin
  _ ←
      when_not_found (get_membership_for_user project_id new_owner_user_id)
        (bad_request "new owner must already be a member")
  when_not_found
      (transfer_ownership_rows project_id actor_user_id new_owner_user_id owner_role.id
        admin_role.id)
      (bad_request "invalid transfer state")
  audit actor_user_id "project.ownership_transferred" project_id
