-- ===== src/Rbac/Project/Lifecycle.antt =====
-- A project from its creation to its end, and invitations:
-- internal/domain/rbac/service/project_service.go, with the statements of
-- internal/domain/rbac/repository/project_queries.go.
use firmflow.Base.{
  ℕ, Bool, true, false, not, ◌&&◌, ◌||◌, if◌then◌else◌, Option, none, some, is_some, is_none, List,
  ◌==◌, ltb, any, count, str_eq,
}
use firmflow.Base.Text.{trim_space, is_empty}
use firmflow.Store.{
  ◌>>=◌, ◌>>◌, pure, fail, guard, catch, now, new_uuid, query, exec, transaction, plain, conflict,
  bad_request, not_found, forbidden, Error, when_not_found,
}
use firmflow.Model.{
  cancelled, completed, Project, Device, Campaign, update_where, insert_row, slug_owner, Role,
}
use firmflow.Db.{Db, live, audit}
use firmflow.Auth.External.{External}
use firmflow.Rbac.Repository.{
  get_membership_for_user, of_member, get_project, get_predefined_role_by_slug, create_membership,
}
use firmflow.Rbac.Authorizer.{
  validate_assignable_role, must_be_owner, is_owner_role, authorize_project,
}
use firmflow.Rbac.Project.{get_role, or_else_fail, ensure_not_archived}
use firmflow.Campaign.State.{same_status}
use firmflow.Auth.Repository.{find_user_by_email}

-- The description is trimmed as well.
unfoldable pub create_project : ℕ → List ℕ → List ℕ → Db ℕ
create_project actor_user_id name description = do
  guard (not (is_empty (trim_space name))) (bad_request "project name is required")
  owner_role ← get_predefined_role_by_slug slug_owner
  id ← transaction do
    id ← new_uuid
    at ← now
    exec λ t. (
      record t {
        projects =
            insert_row
              (record {
                id = id;
                name = trim_space name;
                description = trim_space description;
                archived_at = none;
                created_at = at;
                updated_at = at;
                deleted_at = none;
              })
              t.projects;
      },
      tt,
    )
    create_membership id actor_user_id owner_role.id
    pure id
  audit actor_user_id "project.created" id
  pure id

abbrev pub of_project_id : ℕ → Project → Bool
of_project_id project_id p = (p.id == project_id) && live p.deleted_at

abbrev or_kept : {A : Type 0} → Option A → A → A
or_kept none old = old
or_kept (some new) old = new

abbrev trimmed : Option (List ℕ) → Option (List ℕ)
trimmed none = none
trimmed (some name) = some (trim_space name)

unfoldable pub update_project_fields : ℕ → Option (List ℕ) → Option (List ℕ) → Db (Unit {0})
update_project_fields project_id name description = do
  at ← now
  (if is_none name && is_none description
      then pure tt
      else exec λ t. (
        record t {
          projects =
              update_where (of_project_id project_id)
                (λ p. record p {
                  name = or_kept (trimmed name) p.name;
                  description = or_kept description p.description;
                  updated_at = at;
                })
                t.projects;
        },
        tt,
      ))

unfoldable pub update_project : ℕ → ℕ → Option (List ℕ) → Option (List ℕ) → Db (Unit {0})
unfolding update_project_fields
update_project actor_user_id project_id name description = do
  _ ← authorize_project project_id actor_user_id "project.update"
  ensure_not_archived project_id
  update_project_fields project_id name description
  audit actor_user_id "project.updated" project_id

abbrev stamp : Bool → ℕ → Option ℕ
stamp true at = some at
stamp false at = none

unfoldable pub set_project_archived : ℕ → Bool → Db (Unit {0})
set_project_archived project_id archived = do
  at ← now
  exec λ t. (
    record t {
      projects =
          update_where (of_project_id project_id)
            (λ p. record p { archived_at = stamp archived at; updated_at = at }) t.projects;
    },
    tt,
  )

abbrev pub device_of : ℕ → Device → Bool
device_of project_id d = (d.project_id == project_id) && live d.deleted_at

unfoldable pub set_devices_polling_for_archive : ℕ → Bool → Db (Unit {0})
set_devices_polling_for_archive project_id disable = do
  at ← now
  exec λ t. (
    record t {
      devices =
          update_where (device_of project_id)
            (λ d. record d { polling_disabled_at = stamp disable at; updated_at = at }) t.devices;
    },
    tt,
  )

-- A project that is already as asked is left alone.
abbrev already : Bool → Option ℕ → Bool
already archive archived_at = if archive then is_some archived_at else is_none archived_at

unfoldable pub archive_project : ℕ → ℕ → Bool → Db (Unit {0})
unfolding set_project_archived set_devices_polling_for_archive
archive_project actor_user_id project_id archive = do
  _ ← authorize_project project_id actor_user_id "project.update"
  p ← get_project project_id
  (if already archive p.archived_at then pure tt else do
    set_project_archived project_id archive
    set_devices_polling_for_archive project_id archive
    audit actor_user_id (if archive then "project.archived" else "project.unarchived") project_id)

abbrev pub revoked_device : ℕ → Device → Device
revoked_device at d = record d {
  token_revoked_at = some at;
  polling_disabled_at = some at;
  updated_at = at;
}

unfoldable pub revoke_devices_and_disable_polling : ℕ → Db (Unit {0})
revoke_devices_and_disable_polling project_id = do
  at ← now
  exec λ t.
      (record t { devices = update_where (device_of project_id) (revoked_device at) t.devices }, tt)

-- `status NOT IN ('completed', 'cancelled')`.
abbrev pub blocks_delete : ℕ → Campaign → Bool
blocks_delete project_id c =
    (c.project_id == project_id)
    && (live c.deleted_at && not (same_status c.status completed || same_status c.status cancelled))

unfoldable pub count_blocking_campaigns : ℕ → Db ℕ
count_blocking_campaigns project_id = query (λ t. count (blocks_delete project_id) t.campaigns)

unfoldable pub delete_project_soft : ℕ → Db (Unit {0})
unfolding count_blocking_campaigns revoke_devices_and_disable_polling
delete_project_soft project_id = transaction do
  n ← count_blocking_campaigns project_id
  guard (not (ltb 0 n)) (plain "blocking_campaigns")
  revoke_devices_and_disable_polling project_id
  at ← now
  exec λ t. (
    record t {
      projects =
          update_where (of_project_id project_id) (λ p. record p { deleted_at = some at })
            t.projects;
    },
    tt,
  )

unfoldable pub map_delete_project_error : Error → Error
map_delete_project_error (plain message) =
    if str_eq message "blocking_campaigns"
    then conflict "campaigns_active"
        "cannot delete project while OTA campaigns are in a non-terminal state (not completed or cancelled)"
    else plain message
map_delete_project_error e = e

unfoldable pub must_be_project_owner : ℕ → ℕ → Db (Unit {0})
must_be_project_owner project_id user_id =
    get_membership_for_user project_id user_id >>= must_be_owner

unfoldable pub delete_project : ℕ → ℕ → Db (Unit {0})
unfolding delete_project_soft map_delete_project_error must_be_project_owner
delete_project actor_user_id project_id = do
  _ ← authorize_project project_id actor_user_id "project.delete"
  must_be_project_owner project_id actor_user_id
  catch (delete_project_soft project_id) (λ e. fail (map_delete_project_error e))
  audit actor_user_id "project.deleted" project_id

-- Only an owner invites owners; a failing lookup of the actor is passed on, a refusal is forbidden.
unfoldable pub owner_invites : ℕ → ℕ → Role → Db (Unit {0})
owner_invites project_id actor_user_id role =
    if is_owner_role role
    then (do
      m ← get_membership_for_user project_id actor_user_id
      or_else_fail (must_be_owner m) (fail forbidden))
    else pure tt

unfoldable pub not_a_member : ℕ → ℕ → Db (Unit {0})
not_a_member project_id user_id = do
  existing ← query (λ t. any (of_member project_id user_id) t.project_memberships)
  guard (not existing) (conflict "already_member" "user is already a member")

unfoldable pub invite_member : External → ℕ → ℕ → List ℕ → ℕ → Db (Unit {0})
unfolding owner_invites not_a_member
invite_member x actor_user_id project_id email role_id = do
  _ ← authorize_project project_id actor_user_id "member.invite"
  ensure_not_archived project_id
  role ← or_else_fail (get_role role_id) (fail (bad_request "invalid role"))
  validate_assignable_role project_id role
  owner_invites project_id actor_user_id role
  user ← when_not_found (find_user_by_email x email) (not_found "user not found")
  not_a_member project_id user.id
  create_membership project_id user.id role_id
  audit actor_user_id "member.invited" project_id
