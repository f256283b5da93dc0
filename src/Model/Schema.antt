-- ===== src/Model/Schema.antt =====
-- The tables that the services share, and how a statement selects and changes rows.
use firmflow.Base.{
  ℕ, String, Bool, true, if◌then◌else◌, List, [], ◌∷◌, ◌++◌, Option, ◌≡◌, Bool-cases, inl, inr,
}
use firmflow.Base.Grows.{Grows}
use firmflow.Model.RbacRows.{Permission, Role, ProjectMembership, Project}
use firmflow.Model.CampaignRows.{
  Campaign, CampaignTargetGroup, CampaignTargetDevice, CampaignDeviceAssignment,
}
use firmflow.Model.DeviceRows.{
  Device, DeviceType, DeviceAuthToken, DeviceConnectionLog, DeviceBlockEvent, DeviceGroup,
  DeviceGroupMembership, OtaDownloadToken, Firmware, FirmwareDeviceType,
}
use firmflow.Model.AuthRows.{
  User, UserProfile, AuthSession, SingleUseToken, AuthThrottle, TwoFactorSetting, RecoveryCode,
}

-- `AuditLog`: who did what to which project or user. The JSON metadata is left out.
pub record AuditLog : Type 0 where
  pub id : ℕ
  pub actor_user_id : Option ℕ
  pub event : String
  pub target_type : String
  pub target_id : ℕ
  pub created_at : ℕ

pub record Tables : Type 0 where
  pub permissions : List Permission
  pub roles : List Role
  pub project_memberships : List ProjectMembership
  pub projects : List Project
  pub campaigns : List Campaign
  pub campaign_target_groups : List CampaignTargetGroup
  pub campaign_target_devices : List CampaignTargetDevice
  pub assignments : List CampaignDeviceAssignment
  pub devices : List Device
  pub device_types : List DeviceType
  pub device_auth_tokens : List DeviceAuthToken
  pub connection_logs : List DeviceConnectionLog
  pub block_events : List DeviceBlockEvent
  pub device_groups : List DeviceGroup
  pub group_memberships : List DeviceGroupMembership
  pub ota_download_tokens : List OtaDownloadToken
  pub firmwares : List Firmware
  pub firmware_device_types : List FirmwareDeviceType
  pub audit_logs : List AuditLog
  pub users : List User
  pub user_profiles : List UserProfile
  pub auth_sessions : List AuthSession
  pub email_verification_tokens : List SingleUseToken
  pub password_reset_tokens : List SingleUseToken
  pub auth_throttles : List AuthThrottle
  pub two_factor_settings : List TwoFactorSetting
  pub recovery_codes : List RecoveryCode

-- `UPDATE … SET f WHERE p`, on one table.
unfoldable pub update_where : {A : Type 0} → (A → Bool) → (A → A) → List A → List A
update_where p f [] = []
update_where p f (x ∷ xs) = (if p x then f x else x) ∷ update_where p f xs

-- `DELETE FROM … WHERE p`.
unfoldable pub delete_where : {A : Type 0} → (A → Bool) → List A → List A
delete_where p [] = []
delete_where p (x ∷ xs) = let rest = delete_where p xs in if p x then rest else x ∷ rest

-- `INSERT INTO …`.
abbrev pub insert_row : {A : Type 0} → A → List A → List A
insert_row x xs = xs ++ (x ∷ [])

abbrev pub no_tables : Tables
no_tables = record {
  permissions = [];
  roles = [];
  project_memberships = [];
  projects = [];
  campaigns = [];
  campaign_target_groups = [];
  campaign_target_devices = [];
  assignments = [];
  devices = [];
  device_types = [];
  device_auth_tokens = [];
  connection_logs = [];
  block_events = [];
  device_groups = [];
  group_memberships = [];
  ota_download_tokens = [];
  firmwares = [];
  firmware_device_types = [];
  audit_logs = [];
  users = [];
  user_profiles = [];
  auth_sessions = [];
  email_verification_tokens = [];
  password_reset_tokens = [];
  auth_throttles = [];
  two_factor_settings = [];
  recovery_codes = [];
}

-- An update moves each row within a relation that holds of a row and its update.
pub update_where-Grows :
    {A : Type 0} (R : A → A → Type 0) (p : A → Bool) (f : A → A)
    → ((x : A) → R x x)
    → ((x : A) → p x ≡ true → R x (f x))
    → (xs : List A) → Grows R xs (update_where p f xs)
unfolding update_where
update_where-Grows R p f r h [] = tt
update_where-Grows R p f r h (x ∷ xs) = (
  elim (Bool-cases (p x)) [ inl e ↦ rw e (h x e) | inr e ↦ rw e (r x) ],
  update_where-Grows R p f r h xs,
)
