-- ===== src/Device/Types.antt =====
-- The device types: internal/domain/device/repository/repository.go, and their operations in
-- internal/domain/device/service/service.go.
use firmflow.Base.{
  str_eq, ℕ, String, Bool, false, not, ◌&&◌, ◌||◌, if◌then◌else◌, Option, none, some, is_none,
  is_some, List, ◌==◌, ltb, any, count, find?, filter, ◌++◌,
}
use firmflow.Base.Int.{ℤ}
use firmflow.Base.Text.{trim_space, same_bytes, is_empty}
use firmflow.Store.{
  ◌>>=◌, ◌>>◌, pure, fail, guard, catch, now, new_uuid, query, exec, first, Error, plain,
  bad_request, conflict, not_found, when_not_found,
}
use firmflow.Model.{DeviceType, Device, update_where, insert_row}
use firmflow.Db.{Db, live, audit}
use firmflow.Auth.External.{External}
use firmflow.Rbac.Repository.{get_project}
use firmflow.Rbac.Authorizer.{authorize_project}

-- `ensureProjectNotArchived` of the device service.
unfoldable pub ensure_unarchived : ℕ → Db (Unit {0})
ensure_unarchived project_id = do
  p ← when_not_found (get_project project_id) (not_found "project not found")
  guard (not (is_some p.archived_at))
      (conflict "project_archived" "project is archived; unarchive to modify")

abbrev pub normalize_name : External → List ℕ → List ℕ
normalize_name x name = x.to_lower (trim_space name)

abbrev pub is_project : Option ℕ → ℕ → Bool
is_project none project_id = false
is_project (some p) project_id = p == project_id

abbrev pub of_type_id : ℕ → DeviceType → Bool
of_type_id type_id t = (t.id == type_id) && live t.deleted_at

-- `project_id = ? AND is_predefined = false`, among the rows that are not deleted.
abbrev pub custom_of : ℕ → DeviceType → Bool
custom_of project_id t =
    is_project t.project_id project_id && (not t.is_predefined && live t.deleted_at)

-- The order of the names is the database's and is left out.
unfoldable pub list_predefined_device_types : Db (List DeviceType)
list_predefined_device_types = query (λ t.
    filter (λ d. d.is_predefined && (is_none d.project_id && live d.deleted_at)) t.device_types)

unfoldable pub list_custom_device_types : ℕ → Db (List DeviceType)
list_custom_device_types project_id = query (λ t. filter (custom_of project_id) t.device_types)

unfoldable pub get_device_type : ℕ → Db DeviceType
get_device_type type_id = first (λ t. find? (of_type_id type_id) t.device_types)

abbrev pub excluded : Option ℕ → ℕ → Bool
excluded none id = false
excluded (some e) id = id == e

unfoldable pub custom_device_type_name_taken : ℕ → List ℕ → Option ℕ → Db Bool
custom_device_type_name_taken project_id normalized exclude = query λ t.
    any
      (λ d.
        custom_of project_id d
        && (same_bytes d.name_normalized normalized && not (excluded exclude d.id)))
      t.device_types

-- What a request says of a custom device type, besides its name.
pub record TypeSpec : Type 0 where
  pub processor_architecture : String
  pub hardware_board_version : String
  pub flash_size_bytes : ℤ
  pub memory_notes : String

unfoldable pub create_custom_device_type_row : External → ℕ → List ℕ → TypeSpec → Db DeviceType
create_custom_device_type_row x project_id name spec = do
  created ← now
  updated ← now
  id ← new_uuid
  exec λ t. (
    record t {
      device_types =
          insert_row
            (record {
              id = id;
              project_id = some project_id;
              is_predefined = false;
              name = name;
              name_normalized = normalize_name x name;
              processor_architecture = spec.processor_architecture;
              hardware_board_version = spec.hardware_board_version;
              flash_size_bytes = spec.flash_size_bytes;
              memory_notes = spec.memory_notes;
              deleted_at = none;
              created_at = created;
              updated_at = updated;
            })
            t.device_types;
    },
    tt,
  )
  get_device_type id

-- The fields of a request that change a type: those that are absent stay.
pub record TypeChange : Type 0 where
  pub name : Option (List ℕ)
  pub processor_architecture : Option String
  pub hardware_board_version : Option String
  pub flash_size_bytes : Option ℤ
  pub memory_notes : Option String

abbrev pub or_old : {A : Type 0} → Option A → A → A
or_old none old = old
or_old (some new) old = new

abbrev renamed : External → Option (List ℕ) → DeviceType → DeviceType
renamed x none d = d
renamed x (some name) d = record d { name = name; name_normalized = normalize_name x name }

abbrev changed_type : External → TypeChange → ℕ → DeviceType → DeviceType
changed_type x c at d = renamed x c.name (record d {
  processor_architecture = or_old c.processor_architecture d.processor_architecture;
  hardware_board_version = or_old c.hardware_board_version d.hardware_board_version;
  flash_size_bytes = or_old c.flash_size_bytes d.flash_size_bytes;
  memory_notes = or_old c.memory_notes d.memory_notes;
  updated_at = at;
})

abbrev pub own_type : ℕ → ℕ → DeviceType → Bool
own_type project_id type_id d = (d.id == type_id) && custom_of project_id d

unfoldable pub update_custom_device_type_row : External → ℕ → ℕ → TypeChange → Db DeviceType
update_custom_device_type_row x project_id type_id change = do
  d ← first (λ t. find? (own_type project_id type_id) t.device_types)
  at ← now
  exec λ t. (
    record t {
      device_types = update_where (of_type_id d.id) (changed_type x change at) t.device_types;
    },
    tt,
  )
  get_device_type type_id

abbrev pub registered_with : ℕ → Device → Bool
registered_with type_id d = (d.device_type_id == type_id) && live d.deleted_at

unfoldable pub delete_custom_device_type_row : ℕ → ℕ → Db (Unit {0})
delete_custom_device_type_row project_id type_id = do
  d ← first (λ t. find? (own_type project_id type_id) t.device_types)
  n ← query (λ t. count (registered_with type_id) t.devices)
  guard (not (ltb 0 n)) (plain "device_type_in_use")
  at ← now
  exec λ t. (
    record t {
      device_types =
          update_where (of_type_id d.id) (λ e. record e { deleted_at = some at }) t.device_types;
    },
    tt,
  )

abbrev pub name_taken : Error
name_taken =
    conflict "duplicate_device_type_name"
      "a device type with this name already exists in this project"

unfoldable pub list_device_types : ℕ → ℕ → Db (List DeviceType)
unfolding list_predefined_device_types list_custom_device_types
list_device_types actor_user_id project_id = do
  _ ← authorize_project project_id actor_user_id "device.read"
  pre ← list_predefined_device_types
  cust ← list_custom_device_types project_id
  pure (pre ++ cust)

unfoldable pub create_custom_device_type : External → ℕ → ℕ → List ℕ → TypeSpec → Db DeviceType
unfolding ensure_unarchived custom_device_type_name_taken create_custom_device_type_row
create_custom_device_type x actor_user_id project_id name spec = do
  _ ← authorize_project project_id actor_user_id "device.create"
  ensure_unarchived project_id
  guard (not (is_empty (normalize_name x name))) (bad_request "device type name is required")
  taken ← custom_device_type_name_taken project_id (normalize_name x name) none
  guard (not taken) name_taken
  d ← create_custom_device_type_row x project_id name spec
  audit actor_user_id "device_type.created" project_id
  pure d

-- `dt.IsPredefined || dt.ProjectID == nil || *dt.ProjectID != projectID`.
abbrev pub foreign_type : ℕ → DeviceType → Bool
foreign_type project_id d = d.is_predefined || not (is_project d.project_id project_id)

abbrev free_name : External → ℕ → ℕ → Option (List ℕ) → Db (Unit {0})
free_name x project_id type_id none = pure tt
free_name x project_id type_id (some name) = do
  taken ← custom_device_type_name_taken project_id (normalize_name x name) (some type_id)
  guard (not taken) name_taken

unfoldable pub update_custom_device_type : External → ℕ → ℕ → ℕ → TypeChange → Db DeviceType
unfolding ensure_unarchived get_device_type update_custom_device_type_row
update_custom_device_type x actor_user_id project_id type_id change = do
  _ ← authorize_project project_id actor_user_id "device.update"
  ensure_unarchived project_id
  d ← get_device_type type_id
  guard (not (foreign_type project_id d)) (bad_request "system device types cannot be modified")
  free_name x project_id type_id change.name
  updated ← update_custom_device_type_row x project_id type_id change
  audit actor_user_id "device_type.updated" project_id
  pure updated

unfoldable pub type_in_use : Error → Error
type_in_use (plain message) =
    if str_eq message "device_type_in_use"
    then conflict "device_type_in_use"
        "cannot delete device type while devices are registered with it"
    else plain message
type_in_use e = e

unfoldable pub delete_custom_device_type : ℕ → ℕ → ℕ → Db (Unit {0})
unfolding ensure_unarchived get_device_type delete_custom_device_type_row type_in_use
delete_custom_device_type actor_user_id project_id type_id = do
  _ ← authorize_project project_id actor_user_id "device.update"
  ensure_unarchived project_id
  d ← get_device_type type_id
  guard (not (foreign_type project_id d)) (bad_request "system device types cannot be deleted")
  catch (delete_custom_device_type_row project_id type_id) (λ e. fail (type_in_use e))
  audit actor_user_id "device_type.deleted" project_id
