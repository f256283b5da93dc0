-- ===== src/Rbac/Tests.antt =====
-- The theorems on the members of a project at concrete inputs.
use firmflow.Base.{
  none, [], ◌∷◌, false, true, ℕ, ap, Bool-cases, inl, inr, some, ◌==◌, ◌≤◌, ◌≡◌, refl, arith,
}
use firmflow.Store.{exec_unique, transaction, new_uuid, World, ok, err, conflict, query, exec, now}
use firmflow.Model.{
  slug_admin, slug_viewer, User, update_where, installed, completed, Tables, Device, Role, active,
  pending, slug_owner,
}
use firmflow.Sample.{crypto, device_9, world, role_with, owner_keys}
use firmflow.Base.Text.{trim_space}
use firmflow.Db.{append_audit_log, audit}
use firmflow.Rbac.Repository.{
  set_role_of_row, transfer_ownership_rows, create_membership, get_project, get_membership_for_user,
  get_role, get_predefined_role_by_slug, count_owners, delete_membership,
}
use firmflow.Rbac.Authorizer.{
  validate_assignable_role, is_predefined_owner, must_be_owner, authorize_project,
  role_has_permission, is_owner_role,
}
use firmflow.Rbac.Project.{
  transfer_ownership, remove_member, update_member_role, ensure_not_archived, keeps_an_owner,
  another_owner,
}
use firmflow.Rbac.Repository.{find_role}
use firmflow.Rbac.Project.RoleChange.{update_member_role-owners}
use firmflow.Rbac.Project.LastOwner.{some_injective, owners, remove_member-owners}
use firmflow.Rbac.Project.Deleted.{delete_project-Closed, delete_project_shuts, Closed}
use firmflow.Rbac.Project.Lifecycle.{
  not_a_member, owner_invites, invite_member, map_delete_project_error,
  revoke_devices_and_disable_polling, must_be_project_owner, count_blocking_campaigns,
  delete_project_soft, delete_project,
}
use firmflow.Device.Tokens.{may_connect, get_device_by_active_token_hash}
use firmflow.Campaign.State.{same_status}
use firmflow.Rbac.Project.Invited.{invite_member-Invited, Invited}
use firmflow.Auth.Repository.{find_user_by_email, normalize_email}
use firmflow.Rbac.Project.Transfer.Rows.{UniqueIds}
use firmflow.Rbac.Project.Transfer.{transfer_ownership-Transferred, Transferred}

remove_member-owners_example : 1 ≤ owners 1 1 (remove_member 7 1 8 (world active pending)).1.db
remove_member-owners_example =
    remove_member-owners (world active pending) 7 1 8 (role_with 1 slug_owner owner_keys) refl refl
      (omega arith) (omega arith)

-- The owner may remove the viewer, and not himself.
viewer_removed : (remove_member 7 1 8 (world active pending)).0 ≡ ok tt
unfolding remove_member authorize_project role_has_permission ensure_not_archived keeps_an_owner
    another_owner get_project get_membership_for_user get_role delete_membership is_owner_role audit
    query exec now
viewer_removed = refl

owner_stays :
    (remove_member 7 1 7 (world active pending)).0
    ≡ err (conflict "last_owner" "cannot remove the last owner")
unfolding remove_member authorize_project role_has_permission ensure_not_archived keeps_an_owner
    another_owner get_project get_membership_for_user get_role get_predefined_role_by_slug
    count_owners delete_membership is_owner_role audit query exec now
owner_stays = refl

-- Of the two roles of the sample only the first is the owner's.
only_owner :
    (i : ℕ) (r : Role)
    → find_role i (world active pending).db ≡ some r
    → is_owner_role r ≡ true
    → i ≡ 1
unfolding is_owner_role
only_owner i r e h = elim (Bool-cases (1 == i)) [
  | inl k ↦ ground arith
  | inr k ↦ elim (Bool-cases (4 == i)) [
    | inl l ↦
        let is_viewer = ap is_owner_role (some_injective (rw l at (rw k at e))) in
        absurd (cc (is_viewer, h))
    | inr l ↦ absurd (cc (rw l at (rw k at e)))
  ]
]

update_member_role-owners_example :
    1 ≤ owners 1 1 (update_member_role 7 1 8 4 (world active pending)).1.db
update_member_role-owners_example =
    update_member_role-owners (world active pending) 7 1 8 4 (role_with 1 slug_owner owner_keys)
      refl refl only_owner (omega arith) (omega arith)

-- Project 1 with its campaign completed, and device 10 of project 2 with the token "one".
abbrev finished : World Tables
finished = record (world completed installed) {
  db = record (world completed installed).db {
    devices = device_9 ∷ record device_9 { id = 10; project_id = 2 } ∷ [];
    device_auth_tokens =
        record {
          id = 61;
          device_id = 10;
          token_hash = "one";
          revoked_at = none;
          created_at = 0;
          replaced_by_token_id = none;
          revoked_by_user_id = none;
        }
        ∷ [];
  };
}

finished_deleted : (delete_project 7 1 finished).0 ≡ ok tt
unfolding delete_project delete_project_soft count_blocking_campaigns authorize_project
    role_has_permission must_be_project_owner must_be_owner is_predefined_owner is_owner_role
    get_membership_for_user revoke_devices_and_disable_polling map_delete_project_error audit
    append_audit_log query exec now new_uuid transaction update_where same_status
finished_deleted = refl

delete_project-Closed_example : Closed 1 (delete_project 7 1 finished).1.db
delete_project-Closed_example = delete_project-Closed 7 1 finished finished_deleted

-- A project with a running campaign is not deleted.
active_not_deleted :
    (delete_project 7 1 (world active pending)).0
    ≡ err (
        conflict "campaigns_active"
          "cannot delete project while OTA campaigns are in a non-terminal state (not completed or cancelled)")
unfolding delete_project delete_project_soft count_blocking_campaigns authorize_project
    role_has_permission must_be_project_owner must_be_owner is_predefined_owner is_owner_role
    get_membership_for_user revoke_devices_and_disable_polling map_delete_project_error audit
    append_audit_log query exec now new_uuid transaction update_where same_status
active_not_deleted = refl

abbrev after_deletion : World Tables
after_deletion = (delete_project 7 1 finished).1

abbrev device_10 : Device
device_10 = record device_9 { id = 10; project_id = 2 }

device_10_admitted : (get_device_by_active_token_hash "one" after_deletion).0 ≡ ok device_10
unfolding delete_project delete_project_soft count_blocking_campaigns authorize_project
    role_has_permission must_be_project_owner must_be_owner is_predefined_owner is_owner_role
    get_membership_for_user revoke_devices_and_disable_polling map_delete_project_error audit
    append_audit_log query exec now new_uuid transaction update_where same_status
    get_device_by_active_token_hash may_connect
device_10_admitted = refl

delete_project_shuts_example : (device_10.project_id == 1) ≡ false
delete_project_shuts_example =
    delete_project_shuts 7 1 finished after_deletion "one" device_10 finished_deleted refl
      device_10_admitted

-- The owner invites user 9, who has an account and is no member, as a viewer.
abbrev user_9 : User
user_9 = record {
  id = 9;
  email = [];
  password_hash = "";
  email_verified_at = none;
  two_factor_enabled = false;
  deletion_grace_at = none;
  created_at = 0;
  updated_at = 0;
  deleted_at = none;
}

abbrev with_user : World Tables
with_user = record (world active pending) {
  db = record (world active pending).db { users = user_9 ∷ [] };
}

user_9_invited : (invite_member crypto 7 1 [] 4 with_user).0 ≡ ok tt
unfolding invite_member owner_invites not_a_member authorize_project role_has_permission
    ensure_not_archived validate_assignable_role is_owner_role get_project get_role
    get_membership_for_user find_user_by_email normalize_email create_membership audit
    append_audit_log query exec exec_unique now new_uuid trim_space
user_9_invited = refl

invite_member-Invited_example : Invited (normalize_email crypto []) 7 1 4 with_user.db
invite_member-Invited_example = invite_member-Invited crypto 7 1 4 [] with_user user_9_invited

-- The project with an admin role.
abbrev with_admin : World Tables
with_admin = record (world active pending) {
  db = record (world active pending).db {
    roles =
        role_with 1 slug_owner owner_keys
        ∷ role_with 4 slug_viewer ("campaign.read" ∷ [])
        ∷ role_with 2 slug_admin []
        ∷ [];
  };
}

two_ids : UniqueIds with_admin.db.project_memberships
two_ids id = ground arith

handed_over : (transfer_ownership 7 1 8 with_admin).0 ≡ ok tt
unfolding transfer_ownership ensure_not_archived must_be_owner is_predefined_owner is_owner_role
    get_project get_role get_membership_for_user get_predefined_role_by_slug transfer_ownership_rows
    set_role_of_row audit append_audit_log query exec now new_uuid transaction update_where
handed_over = refl

transfer_ownership-Transferred_example :
    Transferred 1 7 8 with_admin.db (transfer_ownership 7 1 8 with_admin).1.db
transfer_ownership-Transferred_example =
    transfer_ownership-Transferred 7 1 8 with_admin two_ids handed_over
