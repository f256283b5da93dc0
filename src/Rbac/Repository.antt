-- ===== src/Rbac/Repository.antt =====
-- internal/domain/rbac/repository/repository.go: projects, roles and memberships. A read with its
-- preloads is one statement.
use firmflow.Base.{
  ℕ, String, Bool, false, ◌&&◌, not, Option, none, some, List, ◌==◌, str_eq, is_none, find?, filter,
  count, any,
}
use firmflow.Store.{
  ◌>>=◌, ◌>>◌, guard, now, new_uuid, query, exec, exec_unique, transaction, first, plain,
}
use firmflow.Model.{
  Role, ProjectMembership, Project, Tables, zero_role, slug_owner, update_where, delete_where,
  insert_row,
}
use firmflow.Db.{Db, live}

-- A membership with its role preloaded.
pub record Member : Type 0 where
  pub membership : ProjectMembership
  pub role : Role

abbrev pub has_optional_id : Option ℕ → ℕ → Bool
has_optional_id none k = false
has_optional_id (some j) k = j == k

abbrev pub find_role : ℕ → Tables → Option Role
find_role role_id t = find? (λ r. (r.id == role_id) && live r.deleted_at) t.roles

abbrev preload_role : Option Role → Role
preload_role none = zero_role
preload_role (some r) = r

abbrev pub with_role : Tables → Option ProjectMembership → Option Member
with_role t none = none
with_role t (some m) = some (record { membership = m; role = preload_role (find_role m.role_id t) })

abbrev pub of_member : ℕ → ℕ → ProjectMembership → Bool
of_member project_id user_id m = (m.project_id == project_id) && (m.user_id == user_id)

abbrev pub find_member : ℕ → ℕ → Tables → Option Member
find_member project_id user_id t =
    with_role t (find? (of_member project_id user_id) t.project_memberships)

unfoldable pub get_project : ℕ → Db Project
get_project project_id =
    first (λ t. find? (λ p. (p.id == project_id) && live p.deleted_at) t.projects)

-- The `WHERE` of `GetPredefinedRoleBySlug`.
abbrev pub is_predefined_slug : String → Role → Bool
is_predefined_slug slug r =
    r.is_predefined && (is_none r.project_id && (str_eq r.slug slug && live r.deleted_at))

unfoldable pub get_predefined_role_by_slug : String → Db Role
get_predefined_role_by_slug slug = first (λ t. find? (is_predefined_slug slug) t.roles)

unfoldable pub get_membership_for_user : ℕ → ℕ → Db Member
get_membership_for_user project_id user_id = first (find_member project_id user_id)

unfoldable pub get_role : ℕ → Db Role
get_role role_id = first (find_role role_id)

-- `Create(&ProjectMembership{…})`: `BeforeCreate` draws the id, gorm stamps the times, and the
-- index `ux_project_member` refuses a second membership of the user in the project.
unfoldable pub create_membership : ℕ → ℕ → ℕ → Db (Unit {0})
create_membership project_id user_id role_id = do
  new_id ← new_uuid
  at ← now
  exec_unique (λ t. any (of_member project_id user_id) t.project_memberships)
      λ t. (
        record t {
          project_memberships =
              insert_row
                (record {
                  id = new_id;
                  project_id = project_id;
                  user_id = user_id;
                  role_id = role_id;
                  created_at = at;
                  updated_at = at;
                })
                t.project_memberships;
        },
        tt,
      )

unfoldable pub update_membership_role : ℕ → ℕ → ℕ → Db (Unit {0})
update_membership_role project_id user_id new_role_id = do
  at ← now
  exec λ t. (
    record t {
      project_memberships =
          update_where (of_member project_id user_id)
            (λ m. record m { role_id = new_role_id; updated_at = at }) t.project_memberships;
    },
    tt,
  )

unfoldable pub delete_membership : ℕ → ℕ → Db (Unit {0})
delete_membership project_id user_id = exec λ t. (
  record t {
    project_memberships = delete_where (of_member project_id user_id) t.project_memberships;
  },
  tt,
)

unfoldable pub list_memberships : ℕ → Db (List ProjectMembership)
list_memberships project_id =
    query (λ t. filter (λ m. m.project_id == project_id) t.project_memberships)

unfoldable pub count_members_with_role : ℕ → Db ℕ
count_members_with_role role_id =
    query (λ t. count (λ m. m.role_id == role_id) t.project_memberships)

abbrev pub owns : ℕ → ℕ → ProjectMembership → Bool
owns project_id owner_role_id m = (m.project_id == project_id) && (m.role_id == owner_role_id)

unfoldable pub count_owners : ℕ → ℕ → Db ℕ
count_owners project_id owner_role_id =
    query (λ t. count (owns project_id owner_role_id) t.project_memberships)

unfoldable pub set_role_of_row : ℕ → ℕ → ℕ → Db (Unit {0})
set_role_of_row row_id new_role_id at = exec λ t. (
  record t {
    project_memberships =
        update_where (λ m. m.id == row_id)
          (λ m. record m { role_id = new_role_id; updated_at = at }) t.project_memberships;
  },
  tt,
)

unfoldable pub transfer_ownership_rows : ℕ → ℕ → ℕ → ℕ → ℕ → Db (Unit {0})
unfolding set_role_of_row
transfer_ownership_rows project_id from_user_id to_user_id owner_role_id admin_role_id =
    transaction do
      from_member ← first λ t. find? (of_member project_id from_user_id) t.project_memberships
      from_role ← get_role from_member.role_id
      guard (from_role.is_predefined && str_eq from_role.slug slug_owner)
          (plain "only owner can transfer ownership")
      to_member ← first λ t. find? (of_member project_id to_user_id) t.project_memberships
      guard (not (from_user_id == to_user_id)) (plain "cannot transfer to self")
      at ← now
      set_role_of_row from_member.id admin_role_id at
      set_role_of_row to_member.id owner_role_id at
