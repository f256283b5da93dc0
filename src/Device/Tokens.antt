-- ===== src/Device/Tokens.antt =====
-- Devices and the tokens that they sign in with: internal/domain/device/repository/repository.go.
use firmflow.Base.{
  ℕ, String, Bool, false, not, ◌&&◌, if◌then◌else◌, none, some, is_none, is_some, List, [], ◌==◌,
  any, find?, str_eq,
}
use firmflow.Base.Text.{same_bytes}
use firmflow.Store.{
  ◌>>=◌, ◌>>◌, pure, guard, now, new_uuid, exec, exec_unique, first, transaction, plain,
}
use firmflow.Model.{Device, DeviceAuthToken, update_where, insert_row}
use firmflow.Db.{Db, live}
use firmflow.Device.Scope.{get_device, of_device}

-- `token_hash = ? AND revoked_at IS NULL`.
abbrev pub active_token : String → DeviceAuthToken → Bool
active_token hash r = str_eq r.token_hash hash && is_none r.revoked_at

abbrev pub of_device_id : ℕ → Device → Bool
of_device_id device_id d = (d.id == device_id) && live d.deleted_at

-- The gates behind the lookup.
unfoldable pub may_connect : Device → Db (Unit {0})
may_connect d = do
  guard (not d.blocked) (plain "device_blocked")
  guard (not (is_some d.token_revoked_at)) (plain "device_token_revoked")
  guard (not (is_some d.polling_disabled_at)) (plain "device_polling_disabled")

unfoldable pub get_device_by_active_token_hash : String → Db Device
unfolding may_connect
get_device_by_active_token_hash token_hash = do
  token ← first (λ t. find? (active_token token_hash) t.device_auth_tokens)
  d ← first (λ t. find? (of_device_id token.device_id) t.devices)
  may_connect d
  pure d

unfoldable pub get_device_by_hardware_identifier : ℕ → List ℕ → Db Device
get_device_by_hardware_identifier project_id norm = first λ t.
    find?
      (λ d.
        (d.project_id == project_id)
        && (same_bytes d.hardware_identifier_norm norm && live d.deleted_at))
      t.devices

abbrev pub with_active_token : ℕ → ℕ → ℕ → Device → Device
with_active_token token_id issued at d = record d {
  active_auth_token_id = some token_id;
  active_auth_token_issued_at = some issued;
  updated_at = at;
}

abbrev pub issued_token : ℕ → ℕ → String → ℕ → ℕ → DeviceAuthToken
issued_token id device_id hash issued actor = record {
  id = id;
  device_id = device_id;
  token_hash = hash;
  revoked_at = none;
  created_at = issued;
  replaced_by_token_id = none;
  revoked_by_user_id = some actor;
}

-- The row of a new token, which a unique index may refuse.
unfoldable pub insert_auth_token : DeviceAuthToken → Db (Unit {0})
insert_auth_token r =
    exec_unique (λ t. any (λ s. str_eq s.token_hash r.token_hash) t.device_auth_tokens)
      λ t. (record t { device_auth_tokens = insert_row r t.device_auth_tokens }, tt)

abbrev pub set_active_token : ℕ → ℕ → ℕ → ℕ → ℕ → Db (Unit {0})
set_active_token project_id device_id token_id issued at = exec λ t. (
  record t {
    devices =
        update_where (of_device project_id device_id) (with_active_token token_id issued at)
          t.devices;
  },
  tt,
)

-- The arguments name the device type, the name, the identifier and its normal form, the hash and
-- the time of issue of the token, and who registers the device.
unfoldable pub create_device_and_auth_token :
    ℕ → ℕ → List ℕ → List ℕ → List ℕ → String → ℕ → ℕ → Db Device
unfolding insert_auth_token
create_device_and_auth_token project_id type_id name hardware norm hash issued actor = do
  at ← now
  token_id ← new_uuid
  id ← transaction do
    id ← new_uuid
    created ← now
    exec_unique
        (λ t.
          any (λ d. (d.project_id == project_id) && same_bytes d.hardware_identifier_norm norm)
            t.devices)
        λ t. (
          record t {
            devices =
                insert_row
                  (record {
                    id = id;
                    project_id = project_id;
                    connection_status = "offline";
                    name = name;
                    device_type_id = type_id;
                    hardware_identifier = hardware;
                    hardware_identifier_norm = norm;
                    blocked = false;
                    blocked_at = none;
                    last_seen_at = none;
                    current_firmware_version = [];
                    active_auth_token_id = some token_id;
                    active_auth_token_issued_at = some issued;
                    token_revoked_at = none;
                    polling_disabled_at = none;
                    created_at = created;
                    updated_at = created;
                    deleted_at = none;
                  })
                  t.devices;
          },
          tt,
        )
    insert_auth_token (issued_token token_id id hash issued actor)
    set_active_token project_id id token_id issued at
    pure id
  get_device project_id id

abbrev pub set_blocked : Bool → ℕ → Device → Device
set_blocked blocked at d = record d {
  blocked = blocked;
  blocked_at = if blocked then some at else none;
  updated_at = at;
}

unfoldable pub set_device_blocked_row : ℕ → ℕ → Bool → ℕ → Db (Unit {0})
set_device_blocked_row project_id device_id blocked actor = do
  at ← now
  transaction do
    d ← get_device project_id device_id
    exec λ t. (
      record t { devices = update_where (of_device_id d.id) (set_blocked blocked at) t.devices },
      tt,
    )
    id ← new_uuid
    exec λ t. (
      record t {
        block_events =
            insert_row
              (record {
                id = id;
                project_id = project_id;
                device_id = device_id;
                action = if blocked then "blocked" else "unblocked";
                actor_user_id = some actor;
                created_at = at;
              })
              t.block_events;
      },
      tt,
    )

abbrev pub open_token_of : ℕ → DeviceAuthToken → Bool
open_token_of device_id r = (r.device_id == device_id) && is_none r.revoked_at

abbrev pub replaced : ℕ → ℕ → ℕ → DeviceAuthToken → DeviceAuthToken
replaced at new_token_id actor r = record r {
  revoked_at = some at;
  replaced_by_token_id = some new_token_id;
  revoked_by_user_id = some actor;
}

unfoldable pub rotate_device_auth_token : ℕ → ℕ → ℕ → String → ℕ → ℕ → Db Device
unfolding insert_auth_token
rotate_device_auth_token project_id device_id actor new_hash new_id issued = do
  at ← now
  transaction do
    _ ← get_device project_id device_id
    exec λ t. (
      record t {
        device_auth_tokens =
            update_where (open_token_of device_id) (replaced at new_id actor) t.device_auth_tokens;
      },
      tt,
    )
    insert_auth_token (issued_token new_id device_id new_hash issued actor)
    set_active_token project_id device_id new_id issued at
  get_device project_id device_id

-- A log line: project, device, address, agent, action, endpoint and time.
unfoldable pub create_device_connection_log :
    ℕ → ℕ → String → String → String → String → ℕ → Db (Unit {0})
create_device_connection_log project_id device_id ip user_agent action endpoint at = do
  id ← new_uuid
  exec λ t. (
    record t {
      connection_logs =
          insert_row
            (record {
              id = id;
              project_id = project_id;
              device_id = device_id;
              ip = ip;
              user_agent = user_agent;
              action = action;
              endpoint = endpoint;
              created_at = at;
            })
            t.connection_logs;
    },
    tt,
  )
