-- ===== src/Campaign/Service/Create.antt =====
-- `CreateCampaign` of internal/domain/campaign/service/service.go.
use firmflow.Base.{
  ℕ, Bool, true, false, ◌&&◌, ◌||◌, not, if◌then◌else◌, Option, none, some, is_some, List, [], ◌∷◌,
  ◌++◌, ◌==◌, ltb, length, distinct,
}
use firmflow.Base.Int.{ℤ, pos, ltb_ℤ}
use firmflow.Base.Text.{is_empty, trim_space}
use firmflow.Store.{
  ◌>>=◌, ◌>>◌, pure, fail, guard, now, new_uuid, when_not_found, bad_request, not_found,
}
use firmflow.Model.{
  Campaign, Firmware, RolloutKind, immediate, time_scheduled, percentage, unknown, Status, active,
  scheduled,
}
use firmflow.Db.{Db, audit}
use firmflow.Rbac.Authorizer.{authorize_project}
use firmflow.Device.Scope.{
  list_device_ids_in_groups_for_project, list_device_ids_explicit_in_project,
  filter_device_ids_by_compatible_types, device_group_exists_in_project, get_firmware,
  list_device_type_ids_for_firmware,
}
use firmflow.Campaign.Selection.{sort_uuids, take_stable_percentage}
use firmflow.Campaign.Service.{ensure_project_not_archived}
use firmflow.Campaign.Repository.{get_campaign}
use firmflow.Campaign.Repository.Bundle.{create_campaign_bundle}

pub record CreateCampaignInput : Type 0 where
  pub name : List ℕ
  pub firmware_id : ℕ
  pub rollout_kind : RolloutKind
  pub rollout_percent : Option ℤ
  pub scheduled_start_at : Option ℕ
  pub device_group_ids : List ℕ
  pub explicit_device_ids : List ℕ

-- `RolloutPercent == nil || *RolloutPercent < 1 || *RolloutPercent > 100`.
abbrev pub bad_percent : Option ℤ → Bool
bad_percent none = true
bad_percent (some p) = ltb_ℤ p (pos 1) || ltb_ℤ (pos 100) p

-- The `switch in.RolloutKind`.
unfoldable pub check_rollout : RolloutKind → Option ℤ → Option ℕ → Db (Unit {0})
check_rollout immediate p start = pure tt
check_rollout percentage p start =
    guard (not (bad_percent p))
      (bad_request "rollout_percent must be between 1 and 100 for percentage rollout")
check_rollout time_scheduled p start =
    guard (is_some start) (bad_request "scheduled_start_at is required for time_scheduled rollout")
check_rollout (unknown s) p start = fail (bad_request "invalid rollout_kind")

unfoldable pub check_groups : ℕ → List ℕ → Db (Unit {0})
check_groups project_id [] = pure tt
check_groups project_id (g ∷ gs) = do
  found ← device_group_exists_in_project project_id g
  guard found (bad_request "unknown device_group_id")
  check_groups project_id gs

abbrev pub no_target : CreateCampaignInput → Bool
no_target i = (length i.device_group_ids == 0) && (length i.explicit_device_ids == 0)

-- The checks of the request that come before any table of the rollout is read.
unfoldable pub check_input : CreateCampaignInput → Db (Unit {0})
unfolding check_rollout
check_input input = do
  guard (not (is_empty (trim_space input.name))) (bad_request "name is required")
  guard (not (input.firmware_id == 0)) (bad_request "firmware_id is required")
  guard (not (no_target input))
      (bad_request "at least one device_group_id or device_id is required")
  check_rollout input.rollout_kind input.rollout_percent input.scheduled_start_at

-- The devices that the firmware fits, sorted. The map `union` is a list without repetitions.
unfoldable pub compatible_devices : ℕ → CreateCampaignInput → Firmware → Db (List ℕ)
compatible_devices project_id input fw = do
  allowed ← list_device_type_ids_for_firmware fw.id
  guard (not (length allowed == 0)) (bad_request "firmware has no compatible device types")
  from_groups ← list_device_ids_in_groups_for_project project_id input.device_group_ids
  from_explicit ← list_device_ids_explicit_in_project project_id input.explicit_device_ids
  compatible ←
      filter_device_ids_by_compatible_types project_id (distinct (from_groups ++ from_explicit))
        (distinct allowed)
  guard (not (length (sort_uuids compatible) == 0))
      (bad_request "no compatible devices for this firmware in the selected scope")
  pure (sort_uuids compatible)

-- `takeStablePercentage` where the rollout is by percentage; `*in.RolloutPercent` is not nil
-- there, since `check_rollout` has passed.
unfoldable pub chosen_devices : RolloutKind → Option ℤ → List ℕ → List ℕ
chosen_devices percentage (some p) ids = take_stable_percentage ids p
chosen_devices _ p ids = ids

-- `ScheduledStartAt != nil && ScheduledStartAt.After(now)`.
abbrev pub starts_later : Option ℕ → ℕ → Bool
starts_later none at = false
starts_later (some start) at = ltb at start

unfoldable pub initial_status : Option ℕ → ℕ → Status
initial_status start at = if starts_later start at then scheduled else active

unfoldable pub new_campaign : ℕ → ℕ → ℕ → CreateCampaignInput → Firmware → List ℕ → ℕ → Campaign
unfolding initial_status
new_campaign new_id actor_user_id project_id input fw assigned at = record {
  id = new_id;
  project_id = project_id;
  name = trim_space input.name;
  firmware_id = fw.id;
  rollout_kind = input.rollout_kind;
  rollout_percent = input.rollout_percent;
  scheduled_start_at = input.scheduled_start_at;
  status = initial_status input.scheduled_start_at at;
  target_device_count = length assigned;
  activated_at = if starts_later input.scheduled_start_at at then none else some at;
  paused_at = none;
  cancelled_at = none;
  completed_at = none;
  created_by_user_id = actor_user_id;
  created_at = at;
  updated_at = at;
  deleted_at = none;
}

-- `CreateCampaign`. The view that it returns is the campaign, read again.
unfoldable pub create_campaign : ℕ → ℕ → CreateCampaignInput → Db Campaign
unfolding check_input check_groups compatible_devices chosen_devices new_campaign
create_campaign actor_user_id project_id input = do
  _ ← authorize_project project_id actor_user_id "campaign.create"
  ensure_project_not_archived project_id
  check_input input
  check_groups project_id input.device_group_ids
  fw ← when_not_found (get_firmware project_id input.firmware_id) (not_found "firmware not found")
  compatible ← compatible_devices project_id input fw
  let assigned = chosen_devices input.rollout_kind input.rollout_percent compatible
  at ← now
  new_id ← new_uuid
  let c = new_campaign new_id actor_user_id project_id input fw assigned at
  create_campaign_bundle c input.device_group_ids input.explicit_device_ids assigned
  audit actor_user_id "campaign_created" project_id
  _ ← authorize_project project_id actor_user_id "campaign.read"
  when_not_found (get_campaign project_id new_id) (not_found "campaign not found")
