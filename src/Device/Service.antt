-- ===== src/Device/Service.antt =====
-- Registering, rotating, blocking and hearing of devices: internal/domain/device/service/service.go.
use firmflow.Base.{
  ℕ, ◌+◌, ◌*◌, String, Bool, true, false, not, if◌then◌else◌, Option, none, some, List, leb,
}
use firmflow.Base.Text.{trim_space, is_empty}
use firmflow.Store.{
  ◌>>=◌, ◌>>◌, pure, fail, guard, catch, now, new_uuid, query, app, bad_request, conflict,
  record_not_found, Error,
}
use firmflow.Model.{Device, DeviceType}
use firmflow.Db.{Db, audit}
use firmflow.Auth.External.{External, generate_secure_token}
use firmflow.Rbac.Authorizer.{authorize_project}
use firmflow.Device.Scope.{get_device, update_device_seen_and_firmware}
use firmflow.Device.Tokens.{
  create_device_and_auth_token, create_device_connection_log, get_device_by_hardware_identifier,
  rotate_device_auth_token, set_device_blocked_row,
}
use firmflow.Device.Types.{normalize_name, ensure_unarchived, get_device_type, is_project}

abbrev pub online_threshold : ℕ
online_threshold = 5 * 60 * 1000000000

-- `!lastSeenAt.Before(now.Add(-onlineThreshold))`.
unfoldable pub is_online : Option ℕ → ℕ → Bool
is_online none at = false
is_online (some seen) at = leb at (seen + online_threshold)

-- What the twin of a device shows. The last twenty log lines are read as well, and left out.
pub record DeviceTwin : Type 0 where
  pub device : Device
  pub device_type : DeviceType
  pub online : Bool

unfoldable pub get_device_twin : ℕ → ℕ → ℕ → Db DeviceTwin
unfolding is_online
get_device_twin actor_user_id project_id device_id = do
  _ ← authorize_project project_id actor_user_id "device.read"
  d ← get_device project_id device_id
  dt ← get_device_type d.device_type_id
  query (λ t. tt)
  at ← now
  pure (record { device = d; device_type = dt; online = is_online d.last_seen_at at })

-- `GetDeviceByHardwareIdentifier` must not find a device.
unfoldable pub free_hardware : ℕ → List ℕ → Db (Unit {0})
unfolding get_device_by_hardware_identifier
free_hardware project_id norm = do
  taken ←
      catch (do _ ← get_device_by_hardware_identifier project_id norm; pure true)
        (λ e. elim e [ record_not_found ↦ pure false | other ↦ fail other ])
  guard (not taken) (
      conflict "hardware_id_in_use"
        "a device with this hardware identifier already exists in this project")

abbrev pub usable_type : ℕ → DeviceType → Bool
usable_type project_id d = if d.is_predefined then true else is_project d.project_id project_id

unfoldable pub register_device : External → ℕ → ℕ → ℕ → List ℕ → List ℕ → Db (DeviceTwin × List ℕ)
unfolding free_hardware create_device_and_auth_token get_device_twin
register_device x actor_user_id project_id type_id name hardware = do
  _ ← authorize_project project_id actor_user_id "device.create"
  ensure_unarchived project_id
  dt ← get_device_type type_id
  guard (usable_type project_id dt) (bad_request "device type does not belong to this project")
  guard (not (is_empty (normalize_name x hardware))) (bad_request "hardware identifier is required")
  free_hardware project_id (normalize_name x hardware)
  raw ← generate_secure_token x
  issued ← now
  d ←
      create_device_and_auth_token project_id type_id name hardware (normalize_name x hardware)
        (x.hash_token raw) issued actor_user_id
  audit actor_user_id "device.created" project_id
  twin ← get_device_twin actor_user_id project_id d.id
  pure (twin, raw)

unfoldable pub rotate_device_token : External → ℕ → ℕ → ℕ → Db (DeviceTwin × List ℕ)
unfolding rotate_device_auth_token get_device_twin
rotate_device_token x actor_user_id project_id device_id = do
  _ ← authorize_project project_id actor_user_id "device.token.rotate"
  ensure_unarchived project_id
  _ ← get_device project_id device_id
  raw ← generate_secure_token x
  issued ← now
  new_id ← new_uuid
  _ ← rotate_device_auth_token project_id device_id actor_user_id (x.hash_token raw) new_id issued
  audit actor_user_id "device.token_rotated" project_id
  twin ← get_device_twin actor_user_id project_id device_id
  pure (twin, raw)

unfoldable pub set_device_blocked : ℕ → ℕ → ℕ → Bool → Db (Unit {0})
unfolding set_device_blocked_row
set_device_blocked actor_user_id project_id device_id blocked = do
  _ ← authorize_project project_id actor_user_id "device.block"
  ensure_unarchived project_id
  set_device_blocked_row project_id device_id blocked actor_user_id
  audit actor_user_id (if blocked then "device.blocked" else "device.unblocked") project_id

abbrev pub device_is_blocked : Error
device_is_blocked =
    app (record { code = "device_blocked"; message = "device is blocked"; http_status = 403 })

-- Address, agent, endpoint and action of a connection, and the version that the device tells.
unfoldable pub record_device_connection :
    ℕ → ℕ → String → String → String → String → Option (List ℕ) → Db (Unit {0})
unfolding is_online create_device_connection_log
record_device_connection project_id device_id ip user_agent endpoint action version = do
  d ← get_device project_id device_id
  guard (not d.blocked) device_is_blocked
  at ← now
  update_device_seen_and_firmware project_id device_id version at
      (if is_online (some at) at then "online" else "offline")
  create_device_connection_log project_id device_id ip user_agent action endpoint at

unfoldable pub device_poll : ℕ → ℕ → String → String → String → Db (Unit {0})
unfolding record_device_connection
device_poll project_id device_id ip user_agent endpoint =
    record_device_connection project_id device_id ip user_agent endpoint "poll" none

unfoldable pub device_report : ℕ → ℕ → List ℕ → String → String → String → Db (Unit {0})
unfolding record_device_connection
device_report project_id device_id version ip user_agent endpoint = do
  guard (not (is_empty (trim_space version))) (bad_request "current_firmware_version is required")
  record_device_connection project_id device_id ip user_agent endpoint "report"
      (some (trim_space version))

unfoldable pub device_ota_poll : ℕ → ℕ → String → String → Db (Unit {0})
unfolding record_device_connection
device_ota_poll project_id device_id ip endpoint =
    record_device_connection project_id device_id ip "" endpoint "ota_poll" none

unfoldable pub device_ota_report_touch : ℕ → ℕ → String → String → Option (List ℕ) → Db (Unit {0})
unfolding record_device_connection
device_ota_report_touch project_id device_id ip endpoint version =
    record_device_connection project_id device_id ip "" endpoint "ota_report" version
