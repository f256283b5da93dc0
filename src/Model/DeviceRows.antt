-- ===== src/Model/DeviceRows.antt =====
-- internal/domain/project/model/stubs.go, internal/domain/device/model and
-- internal/domain/firmware/model.
use firmflow.Base.{ℕ, String, Bool, List, Option}
use firmflow.Base.Int.{ℤ}

-- `connection_status` holds "online" or "offline".
pub record Device : Type 0 where
  pub id : ℕ
  pub project_id : ℕ
  pub connection_status : String
  pub name : List ℕ
  pub device_type_id : ℕ
  pub hardware_identifier : List ℕ
  pub hardware_identifier_norm : List ℕ
  pub blocked : Bool
  pub blocked_at : Option ℕ
  pub last_seen_at : Option ℕ
  pub current_firmware_version : List ℕ
  pub active_auth_token_id : Option ℕ
  pub active_auth_token_issued_at : Option ℕ
  pub token_revoked_at : Option ℕ
  pub polling_disabled_at : Option ℕ
  pub created_at : ℕ
  pub updated_at : ℕ
  pub deleted_at : Option ℕ

pub record DeviceType : Type 0 where
  pub id : ℕ
  pub project_id : Option ℕ
  pub is_predefined : Bool
  pub name : List ℕ
  pub name_normalized : List ℕ
  pub processor_architecture : String
  pub hardware_board_version : String
  pub flash_size_bytes : ℤ
  pub memory_notes : String
  pub deleted_at : Option ℕ
  pub created_at : ℕ
  pub updated_at : ℕ

pub record DeviceAuthToken : Type 0 where
  pub id : ℕ
  pub device_id : ℕ
  pub token_hash : String
  pub revoked_at : Option ℕ
  pub created_at : ℕ
  pub replaced_by_token_id : Option ℕ
  pub revoked_by_user_id : Option ℕ

pub record DeviceConnectionLog : Type 0 where
  pub id : ℕ
  pub project_id : ℕ
  pub device_id : ℕ
  pub ip : String
  pub user_agent : String
  pub action : String
  pub endpoint : String
  pub created_at : ℕ

pub record DeviceBlockEvent : Type 0 where
  pub id : ℕ
  pub project_id : ℕ
  pub device_id : ℕ
  pub action : String
  pub actor_user_id : Option ℕ
  pub created_at : ℕ

pub record DeviceGroup : Type 0 where
  pub id : ℕ
  pub project_id : ℕ
  pub name : List ℕ
  pub name_normalized : List ℕ
  pub description : List ℕ
  pub created_at : ℕ
  pub updated_at : ℕ
  pub deleted_at : Option ℕ

pub record DeviceGroupMembership : Type 0 where
  pub device_group_id : ℕ
  pub device_id : ℕ
  pub created_at : ℕ

pub record OtaDownloadToken : Type 0 where
  pub id : ℕ
  pub token_hash : String
  pub project_id : ℕ
  pub device_id : ℕ
  pub campaign_id : ℕ
  pub firmware_id : ℕ
  pub expires_at : ℕ
  pub consumed_at : Option ℕ
  pub created_at : ℕ

-- The columns that the rollout and the download of a firmware read.
pub record Firmware : Type 0 where
  pub id : ℕ
  pub project_id : ℕ
  pub version : List ℕ
  pub checksum_sha256 : List ℕ
  pub storage_key : String
  pub deleted_at : Option ℕ

pub record FirmwareDeviceType : Type 0 where
  pub firmware_id : ℕ
  pub device_type_id : ℕ
