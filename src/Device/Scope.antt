-- ===== src/Device/Scope.antt =====
-- internal/domain/device/repository/campaign_scope.go, and the reads and writes of devices and
-- firmware that a rollout makes (device and firmware repository.go).
use firmflow.Base.{
  ℕ, String, Bool, ◌&&◌, Option, none, some, List, [], ◌∷◌, ◌==◌, any, elem, find?, filter, map,
  distinct, count, ltb,
}
use firmflow.Store.{◌>>=◌, pure, now, query, exec, first}
use firmflow.Model.{Device, Firmware, Tables, update_where}
use firmflow.Db.{Db, live}

abbrev pub of_device : ℕ → ℕ → Device → Bool
of_device project_id device_id d =
    (d.id == device_id) && ((d.project_id == project_id) && live d.deleted_at)

unfoldable pub get_device : ℕ → ℕ → Db Device
get_device project_id device_id = first (λ t. find? (of_device project_id device_id) t.devices)

-- `SELECT DISTINCT` over the members of the groups, joined with the devices of the project.
abbrev in_groups : ℕ → List ℕ → Tables → List ℕ
in_groups project_id group_ids t =
    map (λ m. m.device_id)
      (filter
        (λ m. elem m.device_group_id group_ids && any (of_device project_id m.device_id) t.devices)
        t.group_memberships)

unfoldable pub list_device_ids_in_groups_for_project : ℕ → List ℕ → Db (List ℕ)
list_device_ids_in_groups_for_project project_id [] = pure []
list_device_ids_in_groups_for_project project_id (g ∷ gs) =
    query (λ t. distinct (in_groups project_id (g ∷ gs) t))

abbrev of_project : ℕ → Device → Bool
of_project project_id d = (d.project_id == project_id) && live d.deleted_at

unfoldable pub list_device_ids_explicit_in_project : ℕ → List ℕ → Db (List ℕ)
list_device_ids_explicit_in_project project_id [] = pure []
list_device_ids_explicit_in_project project_id (i ∷ is) =
    query
      λ t. map (λ d. d.id) (filter (λ d. of_project project_id d && elem d.id (i ∷ is)) t.devices)

abbrev pub is_compatible : ℕ → List ℕ → List ℕ → Device → Bool
is_compatible project_id device_ids type_ids d =
    of_project project_id d && (elem d.id device_ids && elem d.device_type_id type_ids)

unfoldable pub filter_device_ids_by_compatible_types : ℕ → List ℕ → List ℕ → Db (List ℕ)
filter_device_ids_by_compatible_types project_id [] allowed = pure []
filter_device_ids_by_compatible_types project_id (i ∷ is) [] = pure []
filter_device_ids_by_compatible_types project_id (i ∷ is) (k ∷ ks) =
    query λ t. map (λ d. d.id) (filter (is_compatible project_id (i ∷ is) (k ∷ ks)) t.devices)

unfoldable pub device_group_exists_in_project : ℕ → ℕ → Db Bool
device_group_exists_in_project project_id group_id = query λ t. ltb 0 (
    count (λ g. (g.project_id == project_id) && ((g.id == group_id) && live g.deleted_at))
      t.device_groups)

abbrev set_firmware_version : Option (List ℕ) → Device → Device
set_firmware_version none d = d
set_firmware_version (some v) d = record d { current_firmware_version = v }

-- `UpdateDeviceSeenAndFirmware`; an update that finds no device is no error.
unfoldable pub update_device_seen_and_firmware :
    ℕ → ℕ → Option (List ℕ) → ℕ → String → Db (Unit {0})
update_device_seen_and_firmware project_id device_id version last_seen status = do
  at ← now
  exec λ t. (
    record t {
      devices =
          update_where (of_device project_id device_id)
            (λ d. set_firmware_version version (record d {
              last_seen_at = some last_seen;
              connection_status = status;
              updated_at = at;
            }))
            t.devices;
    },
    tt,
  )

abbrev pub of_firmware : ℕ → ℕ → Firmware → Bool
of_firmware project_id firmware_id f =
    (f.project_id == project_id) && ((f.id == firmware_id) && live f.deleted_at)

unfoldable pub get_firmware : ℕ → ℕ → Db Firmware
get_firmware project_id firmware_id =
    first (λ t. find? (of_firmware project_id firmware_id) t.firmwares)

unfoldable pub list_device_type_ids_for_firmware : ℕ → Db (List ℕ)
list_device_type_ids_for_firmware firmware_id = query λ t.
    map (λ r. r.device_type_id) (filter (λ r. r.firmware_id == firmware_id) t.firmware_device_types)
