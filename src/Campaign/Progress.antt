-- ===== src/Campaign/Progress.antt =====
-- The life of one device's assignment in a rollout: what the operations of
-- internal/domain/campaign/service keep of the assignments, whatever they return.
pub mod Bundle
use firmflow.Base.{
  ℕ, zero, suc, Bool, true, false, ◌≡◌, refl, ◌∙◌, Option, none, some, List, [], ◌∷◌, ◌++◌, drop,
  arith, ◌&&◌, ◌≤◌, map, find?,
}
use firmflow.Base.Grows.{Grows, Grows-refl, Grows-trans, Grows-append, Grows-find?}
use firmflow.Store.{Keeps, IsPreorder, keep_rules, exec-Keeps, exec_unique-Keeps, World, run-Keeps}
use firmflow.Model.{
  Campaign, CampaignDeviceAssignment, Tables, update_where-Grows, AssignmentStatus, pending,
  offered, downloaded, installed, failed,
}
use firmflow.Db.{audit, append_audit_log}
use firmflow.Campaign.State.{same_assignment, terminal_assignment}
use firmflow.Campaign.Repository.{
  of_assignment, status_in, downloaded_from, installed_from, failed_from, update_campaigns,
  update_assignments, pause_campaign_row, resume_campaign_row, cancel_campaign_row,
  mark_campaign_completed, activate_ids, activate_due_scheduled_campaigns, update_assignment_status,
  apply_if_active, apply_ota_downloaded, apply_ota_installed, apply_ota_failed,
  apply_assignment_status, is_campaign_active_in_project, set_assignment_status,
}
use firmflow.Campaign.Repository.Bundle.{
  create_campaign_bundle, insert_campaign, insert_target_groups, insert_target_devices,
  insert_chunk, insert_assignments, batch, pending_row,
}
use firmflow.Campaign.Frame.{KeptByWrites}
use firmflow.Device.Scope.{update_device_seen_and_firmware}

-- How far an assignment is; a device that failed can still be seen with the new version.
abbrev pub stage : AssignmentStatus → ℕ
stage pending = 0
stage offered = 1
stage downloaded = 2
stage failed = 3
stage installed = 4

-- The same assignment, no less far.
pub record Progress (a b : CampaignDeviceAssignment) : Type 0 where
  pub same_campaign : b.campaign_id ≡ a.campaign_id
  pub same_device : b.device_id ≡ a.device_id
  pub same_birth : b.created_at ≡ a.created_at
  pub further : stage a.status ≤ stage b.status

pub Progress-refl : (a : CampaignDeviceAssignment) → Progress a a
Progress-refl a = record {
  same_campaign = refl;
  same_device = refl;
  same_birth = refl;
  further = omega arith;
}

pub Progress-trans : (a b c : CampaignDeviceAssignment) → Progress a b → Progress b c → Progress a c
Progress-trans a b c h k = record {
  same_campaign = k.same_campaign ∙ h.same_campaign;
  same_device = k.same_device ∙ h.same_device;
  same_birth = k.same_birth ∙ h.same_birth;
  further = omega (arith, h.further, k.further);
}

abbrev pub AssignmentsProgress : Tables → Tables → Type 0
AssignmentsProgress t u = Grows Progress t.assignments u.assignments

pub progress : IsPreorder AssignmentsProgress
progress = record {
  refl' = λ t. Grows-refl Progress Progress-refl t.assignments;
  trans' = λ t u v. Grows-trans Progress Progress-trans t.assignments u.assignments v.assignments;
}

update_assignments-Keeps :
    (p : CampaignDeviceAssignment → Bool) (f : CampaignDeviceAssignment → CampaignDeviceAssignment)
    → ((a : CampaignDeviceAssignment) → p a ≡ true → Progress a (f a))
    → Keeps AssignmentsProgress (update_assignments p f)
unfolding update_assignments
update_assignments-Keeps p f h =
    exec-Keeps progress _ (λ t. update_where-Grows Progress p f Progress-refl h t.assignments)

-- The statuses that a report may start from are no further than where it leads.
downloaded_further : (s : AssignmentStatus) → status_in downloaded_from s ≡ true → stage s ≤ 2
unfolding same_assignment
downloaded_further pending h = omega arith
downloaded_further offered h = omega arith
downloaded_further downloaded h = omega arith
downloaded_further installed h = cc
downloaded_further failed h = cc

stage_bound : (s : AssignmentStatus) → stage s ≤ 4
stage_bound pending = omega arith
stage_bound offered = omega arith
stage_bound downloaded = omega arith
stage_bound installed = omega arith
stage_bound failed = omega arith

failed_further : (s : AssignmentStatus) → status_in failed_from s ≡ true → stage s ≤ 3
unfolding same_assignment
failed_further pending h = omega arith
failed_further offered h = omega arith
failed_further downloaded h = omega arith
failed_further installed h = cc
failed_further failed h = omega arith

offered_further : (s : AssignmentStatus) → same_assignment s pending ≡ true → stage s ≤ 1
unfolding same_assignment
offered_further pending h = omega arith
offered_further offered h = cc
offered_further downloaded h = cc
offered_further installed h = cc
offered_further failed h = cc

and_right : (a b : Bool) → (a && b) ≡ true → b ≡ true
and_right a b h = ground arith

moved_on :
    (a : CampaignDeviceAssignment) (to : AssignmentStatus) (code : Option ℕ) (msg : List ℕ) (at : ℕ)
    → stage a.status ≤ stage to
    → Progress a
        (record a { status = to; last_report_code = code; last_report_msg = msg; updated_at = at })
moved_on a to code msg at h = record {
  same_campaign = refl;
  same_device = refl;
  same_birth = refl;
  further = h;
}

pub unchanged : (xs : List CampaignDeviceAssignment) → Grows Progress xs xs
unchanged = Grows-refl Progress Progress-refl

pub ruleset kept = (keep_rules, progress, exec-Keeps, exec_unique-Keeps, unchanged)

apply_if_active-Keeps :
    (from : List AssignmentStatus) (to : AssignmentStatus)
    → ((s : AssignmentStatus) → status_in from s ≡ true → stage s ≤ stage to)
    → (b : Bool) (c d : ℕ) (code : Option ℕ) (msg : List ℕ)
    → Keeps AssignmentsProgress (apply_if_active b c d from to code msg)
unfolding apply_if_active
apply_if_active-Keeps from to h false c d code msg = search kept depth 12
apply_if_active-Keeps from to h true c d code msg =
    search
      (
        kept,
        update_assignments-Keeps,
        λ (at : ℕ) (a : CampaignDeviceAssignment)
              (e : (of_assignment c d a && status_in from a.status) ≡ true).
            moved_on a to code msg at
              (h a.status (and_right (of_assignment c d a) (status_in from a.status) e)),
      )
      depth 12

apply_downloaded-Keeps :
    (b : Bool) (c d : ℕ) (code : Option ℕ) (msg : List ℕ)
    → Keeps AssignmentsProgress (apply_if_active b c d downloaded_from downloaded code msg)
apply_downloaded-Keeps = apply_if_active-Keeps downloaded_from downloaded downloaded_further

apply_installed-Keeps :
    (b : Bool) (c d : ℕ) (code : Option ℕ) (msg : List ℕ)
    → Keeps AssignmentsProgress (apply_if_active b c d installed_from installed code msg)
apply_installed-Keeps = apply_if_active-Keeps installed_from installed (λ s h. stage_bound s)

apply_failed-Keeps :
    (b : Bool) (c d : ℕ) (code : Option ℕ) (msg : List ℕ)
    → Keeps AssignmentsProgress (apply_if_active b c d failed_from failed code msg)
apply_failed-Keeps = apply_if_active-Keeps failed_from failed failed_further

activate_ids-Keeps : (at : ℕ) (is : List ℕ) → Keeps AssignmentsProgress (activate_ids at is)
unfolding activate_ids update_campaigns
activate_ids-Keeps at [] = search kept depth 12
activate_ids-Keeps at (i ∷ is) = search kept depth 12

-- The updates that write a status and the time only.
restamped :
    (a : CampaignDeviceAssignment) (to : AssignmentStatus) (at : ℕ)
    → stage a.status ≤ stage to
    → Progress a (record a { status = to; updated_at = at })
restamped a to at h = moved_on a to a.last_report_code a.last_report_msg at h

offered-Keeps : (c d : ℕ) → Keeps AssignmentsProgress (update_assignment_status c d pending offered)
unfolding update_assignment_status
offered-Keeps c d =
    search
      (
        kept,
        update_assignments-Keeps,
        λ (at : ℕ) (a : CampaignDeviceAssignment)
              (e : (of_assignment c d a && same_assignment a.status pending) ≡ true).
            restamped a offered at (
              offered_further a.status
                (and_right (of_assignment c d a) (same_assignment a.status pending) e)),
      )
      depth 12

pub set_installed-Keeps :
    (c d : ℕ) → Keeps AssignmentsProgress (set_assignment_status c d installed)
unfolding set_assignment_status
set_installed-Keeps c d =
    search
      (
        kept,
        update_assignments-Keeps,
        λ (at : ℕ) (a : CampaignDeviceAssignment) (e : of_assignment c d a ≡ true).
            restamped a installed at (stage_bound a.status),
      )
      depth 12

pub assignment_writes : KeptByWrites AssignmentsProgress
unfolding audit append_audit_log pause_campaign_row resume_campaign_row cancel_campaign_row
    mark_campaign_completed activate_due_scheduled_campaigns update_campaigns apply_ota_downloaded
    apply_ota_installed apply_ota_failed apply_assignment_status is_campaign_active_in_project
    update_device_seen_and_firmware
assignment_writes = record {
  preorder = progress;
  by_audit = λ a e p. search kept depth 12;
  by_pause = λ p c. search kept depth 12;
  by_resume = λ p c. search kept depth 12;
  by_cancel = λ p c. search kept depth 12;
  by_complete = λ p c. search kept depth 12;
  by_activate = λ at. search (kept, activate_ids-Keeps) depth 12;
  by_offered = offered-Keeps;
  by_downloaded = λ p c d. search (kept, apply_downloaded-Keeps) depth 12;
  by_installed = λ p c d. search (kept, apply_installed-Keeps) depth 12;
  by_failed = λ p c d code msg. search (kept, apply_failed-Keeps) depth 12;
  by_seen = λ p d v at s. search kept depth 12;
}
