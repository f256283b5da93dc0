-- ===== src/Device/Tests.antt =====
-- The theorems on devices at concrete inputs: devices 9 and 10 of project 1.
use firmflow.Base.{ℕ, ◌≡◌, refl, String, true, false, none, some, List, [], ◌∷◌, ◌==◌}
use firmflow.Base.Int.{pos}
use firmflow.Store.{err, Error, World, ok, query, exec, exec_unique, now, new_uuid, transaction}
use firmflow.Model.{Device, DeviceType, DeviceAuthToken, Tables, active, pending, update_where}
use firmflow.Sample.{world, crypto, device_9}
use firmflow.Db.{audit, append_audit_log}
use firmflow.Device.Service.{
  is_online, get_device_twin, DeviceTwin, record_device_connection, rotate_device_token,
  set_device_blocked,
}
use firmflow.Device.Tokens.{
  insert_auth_token, rotate_device_auth_token, set_device_blocked_row, may_connect,
  get_device_by_active_token_hash,
}
use firmflow.Device.Gate.{lookup-Admitted, Admitted, rotate_device_token_shuts}
use firmflow.Rbac.Authorizer.{role_has_permission, authorize_project}
use firmflow.Device.Gate.Blocked.{blocked_unheard}
use firmflow.Rbac.Repository.{get_project, get_membership_for_user}
use firmflow.Device.Types.{get_device_type, ensure_unarchived}
use firmflow.Device.Scope.{get_device}
use firmflow.Auth.External.{draw, generate_secure_token}

abbrev device_10 : Device
device_10 = record device_9 { id = 10 }

abbrev type_2 : DeviceType
type_2 = record {
  id = 2;
  project_id = none;
  is_predefined = true;
  name = [];
  name_normalized = [];
  processor_architecture = "";
  hardware_board_version = "";
  flash_size_bytes = pos 0;
  memory_notes = "";
  deleted_at = none;
  created_at = 0;
  updated_at = 0;
}

abbrev token : ℕ → ℕ → String → DeviceAuthToken
token id device_id hash = record {
  id = id;
  device_id = device_id;
  token_hash = hash;
  revoked_at = none;
  created_at = 0;
  replaced_by_token_id = none;
  revoked_by_user_id = none;
}

abbrev fleet : World Tables
fleet = record (world active pending) {
  db = record (world active pending).db {
    devices = device_9 ∷ device_10 ∷ [];
    device_types = type_2 ∷ [];
    device_auth_tokens = token 61 9 "old" ∷ token 62 10 "one" ∷ [];
  };
}

abbrev after_rotation : DeviceTwin × List ℕ
after_rotation = (
  record {
    device = record device_9 {
      active_auth_token_id = some 1006;
      active_auth_token_issued_at = some 505;
      updated_at = 507;
    };
    device_type = type_2;
    online = false;
  },
  1004 ∷ [],
)

rotated : (rotate_device_token crypto 7 1 9 fleet).0 ≡ ok after_rotation
unfolding rotate_device_token authorize_project get_membership_for_user role_has_permission
    ensure_unarchived get_project get_device generate_secure_token draw rotate_device_auth_token
    insert_auth_token audit append_audit_log get_device_twin get_device_type is_online query exec
    exec_unique now new_uuid transaction update_where
rotated = refl

other_device :
    (get_device_by_active_token_hash "one" (rotate_device_token crypto 7 1 9 fleet).1).0
    ≡ ok device_10
unfolding rotate_device_token authorize_project get_membership_for_user role_has_permission
    ensure_unarchived get_project get_device generate_secure_token draw rotate_device_auth_token
    insert_auth_token audit append_audit_log get_device_twin get_device_type is_online query exec
    exec_unique now new_uuid transaction update_where get_device_by_active_token_hash may_connect
other_device = refl

rotate_device_token_shuts_example : (10 == 9) ≡ false
rotate_device_token_shuts_example =
    rotate_device_token_shuts crypto 7 1 9 fleet after_rotation "one"
      (rotate_device_token crypto 7 1 9 fleet).1 device_10 rotated refl refl other_device

looked_up : (get_device_by_active_token_hash "one" fleet).0 ≡ ok device_10
unfolding get_device_by_active_token_hash may_connect query
looked_up = refl

lookup-Admitted_example : Admitted "one" fleet.db device_10
lookup-Admitted_example = lookup-Admitted "one" fleet device_10 looked_up

blocked : (set_device_blocked 7 1 9 true fleet).0 ≡ ok tt
unfolding set_device_blocked authorize_project get_membership_for_user role_has_permission
    ensure_unarchived get_project get_device set_device_blocked_row audit append_audit_log query
    exec now new_uuid transaction update_where
blocked = refl

blocked_unheard_example :
    let heard =
      record_device_connection 1 9 "" "" "tcp/ota" "ota_poll" none
        (set_device_blocked 7 1 9 true fleet).1 in
    (e : Error) × (heard.0 ≡ err e) × (heard.1.db ≡ (set_device_blocked 7 1 9 true fleet).1.db)
blocked_unheard_example =
    blocked_unheard 7 1 9 fleet (set_device_blocked 7 1 9 true fleet).1 "" "" "tcp/ota" "ota_poll"
      none blocked refl
