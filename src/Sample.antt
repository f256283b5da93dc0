-- ===== src/Sample.antt =====
-- A small project for the tests: user 7 owns project 1, with one device, one firmware and one
-- campaign.
use firmflow.Base.{
  str_eq, ◌==◌, if◌then◌else◌, ℕ, ◌+◌, String, true, false, none, some, List, [], ◌∷◌, map,
}
use firmflow.Store.{Env, World}
use firmflow.Model.{
  Permission, Role, ProjectMembership, Project, Campaign, CampaignDeviceAssignment, Device,
  Firmware, Tables, no_tables, Status, AssignmentStatus, immediate, slug_owner, slug_viewer,
}
use firmflow.Auth.External.{External}

abbrev pub quiet : Env
quiet = record {
  fails = λ n. false;
  uuid_new = λ n. 1000 + n;
  clock = λ n. 500 + n;
  equal_fold = λ a b. true;
}

abbrev sample_hash : List ℕ → String
sample_hash [] = "empty"
sample_hash (n ∷ ns) = if n == 1 then "one" else "another"

-- Cryptography for the tests: the hash of a token tells only whether it begins with 1.
abbrev pub crypto : External
crypto = record {
  to_lower = λ s. s;
  hash_token = sample_hash;
  hash_password = λ salt p. some "hashed";
  password_matches = λ h p. str_eq h "hashed";
  encrypt = λ nonce s. some "sealed";
  decrypt = λ s. some [];
  totp_secret = λ n. [];
  totp_valid = λ at s c. true;
  token_text = λ n. n ∷ [];
  sign = λ u s at. some [];
}

abbrev permission : String → Permission
permission key = record { id = 1; key = key; description = key }

abbrev pub role_with : ℕ → String → List String → Role
role_with id slug keys = record {
  id = id;
  project_id = none;
  slug = slug;
  name = [];
  name_normalized = [];
  is_predefined = true;
  description = [];
  permissions = map permission keys;
  created_at = 0;
  updated_at = 0;
  deleted_at = none;
}

abbrev pub project_1 : Project
project_1 = record {
  id = 1;
  name = [];
  description = [];
  archived_at = none;
  created_at = 0;
  updated_at = 0;
  deleted_at = none;
}

abbrev pub member : ℕ → ℕ → ℕ → ProjectMembership
member id user role = record {
  id = id;
  project_id = 1;
  user_id = user;
  role_id = role;
  created_at = 0;
  updated_at = 0;
}

abbrev pub campaign_5 : Status → Campaign
campaign_5 status = record {
  id = 5;
  project_id = 1;
  name = [];
  firmware_id = 3;
  rollout_kind = immediate;
  rollout_percent = none;
  scheduled_start_at = some 100;
  status = status;
  target_device_count = 1;
  activated_at = none;
  paused_at = none;
  cancelled_at = none;
  completed_at = none;
  created_by_user_id = 7;
  created_at = 1;
  updated_at = 1;
  deleted_at = none;
}

abbrev pub assignment_9 : AssignmentStatus → CampaignDeviceAssignment
assignment_9 status = record {
  campaign_id = 5;
  device_id = 9;
  status = status;
  last_report_code = none;
  last_report_msg = [];
  created_at = 1;
  updated_at = 1;
}

abbrev pub device_9 : Device
device_9 = record {
  id = 9;
  project_id = 1;
  connection_status = "offline";
  name = [];
  device_type_id = 2;
  hardware_identifier = [];
  hardware_identifier_norm = [];
  blocked = false;
  blocked_at = none;
  last_seen_at = none;
  current_firmware_version = [];
  active_auth_token_id = none;
  active_auth_token_issued_at = none;
  token_revoked_at = none;
  polling_disabled_at = none;
  created_at = 0;
  updated_at = 0;
  deleted_at = none;
}

abbrev pub firmware_3 : Firmware
firmware_3 = record {
  id = 3;
  project_id = 1;
  version = 0x32 ∷ [];
  checksum_sha256 = [];
  storage_key = "";
  deleted_at = none;
}

abbrev pub owner_keys : List String
owner_keys =
    "campaign.create" ∷ "campaign.read" ∷ "campaign.update" ∷ "campaign.pause" ∷ "campaign.cancel"
    ∷ "member.invite" ∷ "member.update_role" ∷ "member.remove" ∷ "device.read" ∷ "device.block"
    ∷ "device.token.rotate" ∷ "project.delete" ∷ []

abbrev pub sample : Status → AssignmentStatus → Tables
sample status progress = record no_tables {
  roles = role_with 1 slug_owner owner_keys ∷ role_with 4 slug_viewer ("campaign.read" ∷ []) ∷ [];
  project_memberships = member 21 7 1 ∷ member 22 8 4 ∷ [];
  projects = project_1 ∷ [];
  campaigns = campaign_5 status ∷ [];
  assignments = assignment_9 progress ∷ [];
  devices = device_9 ∷ [];
  firmwares = firmware_3 ∷ [];
}

abbrev pub world : Status → AssignmentStatus → World Tables
world status progress = record { env = quiet; tick = 0; db = sample status progress }
