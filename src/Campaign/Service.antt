-- ===== src/Campaign/Service.antt =====
-- internal/domain/campaign/service: the life of a rollout. `Create` is `CreateCampaign`, `Report`
-- is `ApplyOtaDeviceReport` and `OnDeviceReportFirmware`; this file has the other operations.
pub mod Create
pub mod Report
use firmflow.Base.{
  ℕ, zero, String, Bool, true, false, ◌&&◌, not, if◌then◌else◌, Option, none, some, List, ◌==◌, ltb,
  is_some,
}
use firmflow.Store.{
  ◌>>=◌, ◌>>◌, pure, fail, guard, ignore, now, when_not_found, bad_request, not_found, conflict,
}
use firmflow.Model.{Campaign, active, AssignmentStatus, pending, offered}
use firmflow.Db.{Db, audit}
use firmflow.Rbac.Repository.{get_project}
use firmflow.Rbac.Authorizer.{authorize_project}
use firmflow.Campaign.State.{same_status, same_assignment}
use firmflow.Campaign.Repository.{
  get_campaign, mark_campaign_completed, pause_campaign_row, resume_campaign_row,
  cancel_campaign_row, activate_due_scheduled_campaigns, count_non_terminal_assignments,
  update_assignment_status,
}
use firmflow.Campaign.Repository.Offer.{Joined, find_active_pending_offer}

unfoldable pub ensure_project_not_archived : ℕ → Db (Unit {0})
ensure_project_not_archived project_id = do
  p ← when_not_found (get_project project_id) (not_found "project not found")
  guard (not (is_some p.archived_at)) (conflict "project_archived" "project is archived")

unfoldable pub pause_campaign : ℕ → ℕ → ℕ → Db (Unit {0})
pause_campaign actor_user_id project_id campaign_id = do
  _ ← authorize_project project_id actor_user_id "campaign.pause"
  when_not_found (pause_campaign_row project_id campaign_id)
      (bad_request "campaign cannot be paused from its current state")
  audit actor_user_id "campaign_paused" project_id

unfoldable pub resume_campaign : ℕ → ℕ → ℕ → Db (Unit {0})
resume_campaign actor_user_id project_id campaign_id = do
  _ ← authorize_project project_id actor_user_id "campaign.update"
  when_not_found (resume_campaign_row project_id campaign_id)
      (bad_request "campaign cannot be resumed from its current state")
  audit actor_user_id "campaign_resumed" project_id

unfoldable pub cancel_campaign : ℕ → ℕ → ℕ → Db (Unit {0})
cancel_campaign actor_user_id project_id campaign_id = do
  _ ← authorize_project project_id actor_user_id "campaign.cancel"
  when_not_found (cancel_campaign_row project_id campaign_id)
      (bad_request "campaign cannot be cancelled from its current state")
  audit actor_user_id "campaign_cancelled" project_id

-- `ActivateDueCampaigns`, which the scheduler calls at each tick.
unfoldable pub activate_due_campaigns : Db (List ℕ)
activate_due_campaigns = do at ← now; activate_due_scheduled_campaigns at

-- The part of `tryAutoComplete` behind its two tests.
complete_when_done : ℕ → ℕ → Campaign → ℕ → Db (Unit {0})
complete_when_done project_id campaign_id c n =
    if (n == 0) && ltb 0 c.target_device_count
    then ignore (mark_campaign_completed project_id campaign_id)
    else pure tt

complete_if_active : ℕ → ℕ → Campaign → Db (Unit {0})
unfolding complete_when_done
complete_if_active project_id campaign_id c =
    if same_status c.status active
    then count_non_terminal_assignments campaign_id >>= complete_when_done project_id campaign_id c
    else pure tt

unfoldable pub try_auto_complete : ℕ → ℕ → Db (Unit {0})
unfolding complete_if_active
try_auto_complete project_id campaign_id = do
  c ← get_campaign project_id campaign_id
  complete_if_active project_id campaign_id c

-- `PollOfferView`.
pub record PollOffer : Type 0 where
  pub campaign_id : ℕ
  pub firmware_id : ℕ
  pub version : List ℕ
  pub checksum_sha256 : List ℕ

-- A pending assignment becomes offered; an offered one stays as it is.
mark_offered : ℕ → Joined → Db (Unit {0})
mark_offered device_id j =
    if same_assignment j.assignment.status pending
    then update_assignment_status j.campaign.id device_id pending offered
    else pure tt

unfoldable pub answer_offer : ℕ → ℕ → Option Joined → Db (Option PollOffer)
unfolding mark_offered
answer_offer project_id device_id none = pure none
answer_offer project_id device_id (some j) = do
  mark_offered device_id j
  ignore (try_auto_complete project_id j.campaign.id)
  pure (
      some (record {
        campaign_id = j.campaign.id;
        firmware_id = j.firmware.id;
        version = j.firmware.version;
        checksum_sha256 = j.firmware.checksum_sha256;
      }))

unfoldable pub build_poll_offer : ℕ → ℕ → Db (Option PollOffer)
unfolding answer_offer
build_poll_offer project_id device_id = do
  row ← find_active_pending_offer project_id device_id
  answer_offer project_id device_id row
