-- ===== src/Model/CampaignRows.antt =====
-- internal/domain/campaign/model/models.go and the constants of state.go.
use firmflow.Base.{ℕ, String, List, Option}
use firmflow.Base.Int.{ℤ}

-- The `Status…` constants; `other` is any other text of the column.
pub data Status : Type 0 where
  draft scheduled active paused cancelled completed : Status
  other : String → Status

-- The `RolloutKind…` constants; `unknown` is any other text of a request.
pub data RolloutKind : Type 0 where
  immediate time_scheduled percentage : RolloutKind
  unknown : String → RolloutKind

-- The `Assignment…` constants: the column holds no other text, since no statement writes one.
pub data AssignmentStatus : Type 0 where
  pending offered downloaded installed failed : AssignmentStatus

pub record Campaign : Type 0 where
  pub id : ℕ
  pub project_id : ℕ
  pub name : List ℕ
  pub firmware_id : ℕ
  pub rollout_kind : RolloutKind
  pub rollout_percent : Option ℤ
  pub scheduled_start_at : Option ℕ
  pub status : Status
  pub target_device_count : ℕ
  pub activated_at : Option ℕ
  pub paused_at : Option ℕ
  pub cancelled_at : Option ℕ
  pub completed_at : Option ℕ
  pub created_by_user_id : ℕ
  pub created_at : ℕ
  pub updated_at : ℕ
  pub deleted_at : Option ℕ

pub record CampaignTargetGroup : Type 0 where
  pub campaign_id : ℕ
  pub device_group_id : ℕ
  pub created_at : ℕ

pub record CampaignTargetDevice : Type 0 where
  pub campaign_id : ℕ
  pub device_id : ℕ
  pub created_at : ℕ

pub record CampaignDeviceAssignment : Type 0 where
  pub campaign_id : ℕ
  pub device_id : ℕ
  pub status : AssignmentStatus
  pub last_report_code : Option ℕ
  pub last_report_msg : List ℕ
  pub created_at : ℕ
  pub updated_at : ℕ
