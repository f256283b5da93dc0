-- ===== src/Campaign/Repository.antt =====
-- internal/domain/campaign/repository: the statements on campaigns and assignments.
pub mod Offer
pub mod Bundle
use firmflow.Base.{
  ℕ, zero, suc, ◌+◌, ◌-◌, ◌*◌, String, Bool, true, false, ◌&&◌, ◌||◌, not, if◌then◌else◌, Option,
  none, some, is_some, List, [], ◌∷◌, ◌++◌, map, ◌==◌, ltb, leb, any, elem, find?, filter, count,
  length, take, drop, concat_map,
}
use firmflow.Store.{◌>>=◌, ◌>>◌, pure, now, query, exec, exec_unique, transaction, first, some_row}
use firmflow.Model.{
  Campaign, CampaignDeviceAssignment, Firmware, Tables, Status, draft, scheduled, active, paused,
  cancelled, completed, AssignmentStatus, pending, offered, downloaded, installed, failed,
  update_where, insert_row,
}
use firmflow.Db.{Db, live}
use firmflow.Campaign.State.{same_status, same_assignment}

-- `WHERE project_id = ? AND id = ?`.
abbrev pub of_campaign : ℕ → ℕ → Campaign → Bool
of_campaign project_id campaign_id c =
    (c.project_id == project_id) && ((c.id == campaign_id) && live c.deleted_at)

-- `Model(&Campaign{}).Where(p).Updates(f)`, with the number of rows.
unfoldable pub update_campaigns : (Campaign → Bool) → (Campaign → Campaign) → Db ℕ
update_campaigns p f =
    exec λ t. (record t { campaigns = update_where p f t.campaigns }, count p t.campaigns)

unfoldable pub update_assignments :
    (CampaignDeviceAssignment → Bool) → (CampaignDeviceAssignment → CampaignDeviceAssignment) → Db ℕ
update_assignments p f =
    exec λ t. (record t { assignments = update_where p f t.assignments }, count p t.assignments)

unfoldable pub get_campaign : ℕ → ℕ → Db Campaign
get_campaign project_id campaign_id =
    first (λ t. find? (of_campaign project_id campaign_id) t.campaigns)

-- `Where("project_id = ? AND id = ? AND status = ?", …)`.
abbrev pub in_status : ℕ → ℕ → Status → Campaign → Bool
in_status project_id campaign_id status c =
    of_campaign project_id campaign_id c && same_status c.status status

unfoldable pub mark_campaign_completed : ℕ → ℕ → Db (Unit {0})
mark_campaign_completed project_id campaign_id = do
  at ← now
  rows ←
      update_campaigns (in_status project_id campaign_id active)
        (λ c. record c { status = completed; completed_at = some at; updated_at = at })
  some_row rows

unfoldable pub pause_campaign_row : ℕ → ℕ → Db (Unit {0})
pause_campaign_row project_id campaign_id = do
  at ← now
  rows ←
      update_campaigns (in_status project_id campaign_id active)
        (λ c. record c { status = paused; paused_at = some at; updated_at = at })
  some_row rows

unfoldable pub resume_campaign_row : ℕ → ℕ → Db (Unit {0})
resume_campaign_row project_id campaign_id = do
  at ← now
  rows ←
      update_campaigns (in_status project_id campaign_id paused)
        (λ c. record c { status = active; paused_at = none; updated_at = at })
  some_row rows

-- `status IN (draft, scheduled, active, paused)`.
abbrev pub can_be_cancelled : Status → Bool
can_be_cancelled s =
    same_status s draft
    || (same_status s scheduled || (same_status s active || same_status s paused))

unfoldable pub cancel_campaign_row : ℕ → ℕ → Db (Unit {0})
cancel_campaign_row project_id campaign_id = do
  at ← now
  rows ←
      update_campaigns (λ c. of_campaign project_id campaign_id c && can_be_cancelled c.status)
        (λ c. record c { status = cancelled; cancelled_at = some at; updated_at = at })
  some_row rows

-- `scheduled_start_at IS NOT NULL AND scheduled_start_at <= now`.
abbrev pub is_due : ℕ → Option ℕ → Bool
is_due at none = false
is_due at (some start) = leb start at

abbrev pub due_scheduled : ℕ → Campaign → Bool
due_scheduled at c =
    same_status c.status scheduled && (is_due at c.scheduled_start_at && live c.deleted_at)

unfoldable pub activate_ids : ℕ → List ℕ → Db (List ℕ)
activate_ids at [] = pure []
activate_ids at (i ∷ is) = do
  _ ←
      update_campaigns
        (λ c. elem c.id (i ∷ is) && (same_status c.status scheduled && live c.deleted_at))
        (λ c. record c { status = active; activated_at = some at; updated_at = at })
  pure (i ∷ is)

unfoldable pub activate_due_scheduled_campaigns : ℕ → Db (List ℕ)
unfolding activate_ids
activate_due_scheduled_campaigns at = transaction do
  ids ← query (λ t. map (λ c. c.id) (filter (due_scheduled at) t.campaigns))
  activate_ids at ids

abbrev pub of_assignment : ℕ → ℕ → CampaignDeviceAssignment → Bool
of_assignment campaign_id device_id a = (a.campaign_id == campaign_id) && (a.device_id == device_id)

unfoldable pub get_device_assignment : ℕ → ℕ → Db CampaignDeviceAssignment
get_device_assignment campaign_id device_id =
    first (λ t. find? (of_assignment campaign_id device_id) t.assignments)

unfoldable pub update_assignment_status :
    ℕ → ℕ → AssignmentStatus → AssignmentStatus → Db (Unit {0})
update_assignment_status campaign_id device_id expect_from to = do
  at ← now
  rows ←
      update_assignments
        (λ a. of_assignment campaign_id device_id a && same_assignment a.status expect_from)
        (λ a. record a { status = to; updated_at = at })
  some_row rows

unfoldable pub set_assignment_status : ℕ → ℕ → AssignmentStatus → Db (Unit {0})
set_assignment_status campaign_id device_id to = do
  at ← now
  rows ←
      update_assignments (of_assignment campaign_id device_id)
        (λ a. record a { status = to; updated_at = at })
  some_row rows

-- `status NOT IN (installed, failed)`.
abbrev pub is_non_terminal : AssignmentStatus → Bool
is_non_terminal s = not (same_assignment s installed || same_assignment s failed)

unfoldable pub count_non_terminal_assignments : ℕ → Db ℕ
count_non_terminal_assignments campaign_id =
    query λ t. count (λ a. (a.campaign_id == campaign_id) && is_non_terminal a.status) t.assignments

unfoldable pub count_assignments_by_status : ℕ → Db (AssignmentStatus → ℕ)
count_assignments_by_status campaign_id =
    query
      λ t s. count (λ a. (a.campaign_id == campaign_id) && same_assignment a.status s) t.assignments

-- `isCampaignActiveInProject`.
unfoldable pub is_campaign_active_in_project : ℕ → ℕ → Db Bool
is_campaign_active_in_project project_id campaign_id =
    query (λ t. ltb 0 (count (in_status project_id campaign_id active) t.campaigns))

abbrev pub status_in : List AssignmentStatus → AssignmentStatus → Bool
status_in from s = any (same_assignment s) from

-- The update of `applyAssignmentStatus`, behind its test.
unfoldable pub apply_if_active :
    Bool → ℕ → ℕ → List AssignmentStatus → AssignmentStatus → Option ℕ → List ℕ → Db ℕ
apply_if_active false campaign_id device_id from to code msg = pure 0
apply_if_active true campaign_id device_id from to code msg = do
  at ← now
  update_assignments (λ a. of_assignment campaign_id device_id a && status_in from a.status)
      λ a. record a { status = to; last_report_code = code; last_report_msg = msg; updated_at = at }

unfoldable pub apply_assignment_status :
    ℕ → ℕ → ℕ → List AssignmentStatus → AssignmentStatus → Option ℕ → List ℕ → Db ℕ
unfolding apply_if_active
apply_assignment_status project_id campaign_id device_id from to code msg = do
  is_active ← is_campaign_active_in_project project_id campaign_id
  apply_if_active is_active campaign_id device_id from to code msg

abbrev pub downloaded_from : List AssignmentStatus
downloaded_from = offered ∷ downloaded ∷ []

abbrev pub installed_from : List AssignmentStatus
installed_from = offered ∷ downloaded ∷ installed ∷ []

abbrev pub failed_from : List AssignmentStatus
failed_from = pending ∷ offered ∷ downloaded ∷ failed ∷ []

unfoldable pub apply_ota_downloaded : ℕ → ℕ → ℕ → Db ℕ
apply_ota_downloaded project_id campaign_id device_id =
    apply_assignment_status project_id campaign_id device_id downloaded_from downloaded none []

unfoldable pub apply_ota_installed : ℕ → ℕ → ℕ → Db ℕ
apply_ota_installed project_id campaign_id device_id =
    apply_assignment_status project_id campaign_id device_id installed_from installed none []

unfoldable pub apply_ota_failed : ℕ → ℕ → ℕ → Option ℕ → List ℕ → Db ℕ
apply_ota_failed project_id campaign_id device_id code msg =
    apply_assignment_status project_id campaign_id device_id failed_from failed code msg
