-- ===== src/Campaign/Frame.antt =====
-- How a preorder on the tables is kept by the campaign service, once its writes keep it: each
-- operation of internal/domain/campaign/service as a composition of reads and these writes.
pub mod Create
use firmflow.Base.{ℕ, zero, suc, String, Bool, true, false, Option, none, some, List, [], ◌∷◌}
use firmflow.Base.Int.{ℤ}
use firmflow.Store.{M, Error, Keeps, IsPreorder, keep_rules, bind-Keeps, equal_fold_of-Keeps}
use firmflow.Model.{
  Campaign, Firmware, Tables, RolloutKind, immediate, time_scheduled, percentage, unknown,
  AssignmentStatus, pending, offered, installed,
}
use firmflow.Db.{Db, audit, append_audit_log}
use firmflow.Rbac.Repository.{get_project, get_membership_for_user}
use firmflow.Rbac.Authorizer.{authorize_project}
use firmflow.Device.Scope.{
  get_firmware, update_device_seen_and_firmware, list_device_ids_in_groups_for_project,
  list_device_ids_explicit_in_project, filter_device_ids_by_compatible_types,
  device_group_exists_in_project, list_device_type_ids_for_firmware,
}
use firmflow.Campaign.Repository.{
  get_campaign, mark_campaign_completed, pause_campaign_row, resume_campaign_row,
  cancel_campaign_row, activate_due_scheduled_campaigns, get_device_assignment,
  update_assignment_status, set_assignment_status, count_non_terminal_assignments,
  apply_ota_downloaded, apply_ota_installed, apply_ota_failed,
}
use firmflow.Campaign.Repository.Offer.{Joined, find_active_pending_offer, find_in_progress}
use firmflow.Campaign.Repository.Bundle.{create_campaign_bundle}
use firmflow.Campaign.Service.{
  ensure_project_not_archived, pause_campaign, resume_campaign, cancel_campaign,
  activate_due_campaigns, try_auto_complete, answer_offer, build_poll_offer,
}
use firmflow.Campaign.Service.Report.{
  OtaDeviceReportStatus, report_downloaded, report_installed, report_failed, invalid,
  installed_version, apply_report, install_if, compare_and_install, apply_ota_device_report,
  on_device_report_firmware,
}

-- The writes of the campaign repository, and those it borrows.
pub record KeptByWrites (R : Tables → Tables → Type 0) : Type 0 where
  pub preorder : IsPreorder R
  pub by_audit : (a : ℕ) (e : String) (p : ℕ) → Keeps R (audit a e p)
  pub by_pause : (p c : ℕ) → Keeps R (pause_campaign_row p c)
  pub by_resume : (p c : ℕ) → Keeps R (resume_campaign_row p c)
  pub by_cancel : (p c : ℕ) → Keeps R (cancel_campaign_row p c)
  pub by_complete : (p c : ℕ) → Keeps R (mark_campaign_completed p c)
  pub by_activate : (at : ℕ) → Keeps R (activate_due_scheduled_campaigns at)
  pub by_offered : (c d : ℕ) → Keeps R (update_assignment_status c d pending offered)
  pub by_downloaded : (p c d : ℕ) → Keeps R (apply_ota_downloaded p c d)
  pub by_installed : (p c d : ℕ) → Keeps R (apply_ota_installed p c d)
  pub by_failed :
      (p c d : ℕ) (code : Option ℕ) (msg : List ℕ) → Keeps R (apply_ota_failed p c d code msg)
  pub by_seen :
      (p d : ℕ) (v : Option (List ℕ)) (at : ℕ) (s : String)
      → Keeps R (update_device_seen_and_firmware p d v at s)

module _ (R : Tables → Tables → Type 0) (k : KeptByWrites R) where
  pub authorize_project-Keeps : (q u : ℕ) (key : String) → Keeps R (authorize_project q u key)
  unfolding authorize_project get_membership_for_user
  authorize_project-Keeps q u key = search (keep_rules, k.preorder) depth 12

  pub ensure_project_not_archived-Keeps : (q : ℕ) → Keeps R (ensure_project_not_archived q)
  unfolding ensure_project_not_archived get_project
  ensure_project_not_archived-Keeps q = search (keep_rules, k.preorder) depth 12

  pub pause_campaign-Keeps : (a q c : ℕ) → Keeps R (pause_campaign a q c)
  unfolding pause_campaign
  pause_campaign-Keeps a q c =
      search (keep_rules, k.preorder, authorize_project-Keeps, k.by_pause, k.by_audit) depth 12

  pub resume_campaign-Keeps : (a q c : ℕ) → Keeps R (resume_campaign a q c)
  unfolding resume_campaign
  resume_campaign-Keeps a q c =
      search (keep_rules, k.preorder, authorize_project-Keeps, k.by_resume, k.by_audit) depth 12

  pub cancel_campaign-Keeps : (a q c : ℕ) → Keeps R (cancel_campaign a q c)
  unfolding cancel_campaign
  cancel_campaign-Keeps a q c =
      search (keep_rules, k.preorder, authorize_project-Keeps, k.by_cancel, k.by_audit) depth 12

  pub activate_due_campaigns-Keeps : Keeps R activate_due_campaigns
  unfolding activate_due_campaigns
  activate_due_campaigns-Keeps = search (keep_rules, k.preorder, k.by_activate) depth 12

  try_auto_complete-Keeps : (q c : ℕ) → Keeps R (try_auto_complete q c)
  unfolding try_auto_complete get_campaign count_non_terminal_assignments
  try_auto_complete-Keeps q c = search (keep_rules, k.preorder, k.by_complete) depth 14

  answer_offer-Keeps : (q d : ℕ) (o : Option Joined) → Keeps R (answer_offer q d o)
  unfolding answer_offer
  answer_offer-Keeps q d none = search (keep_rules, k.preorder) depth 12
  answer_offer-Keeps q d (some j) =
      search (keep_rules, k.preorder, k.by_offered, try_auto_complete-Keeps) depth 12

  pub build_poll_offer-Keeps : (q d : ℕ) → Keeps R (build_poll_offer q d)
  unfolding build_poll_offer find_active_pending_offer
  build_poll_offer-Keeps q d = search (keep_rules, k.preorder, answer_offer-Keeps) depth 12

  installed_version-Keeps : (q d c rows : ℕ) → Keeps R (installed_version q d c rows)
  unfolding installed_version get_campaign get_firmware
  installed_version-Keeps q d c zero = search (keep_rules, k.preorder) depth 12
  installed_version-Keeps q d c (suc rows) = search (keep_rules, k.preorder, k.by_seen) depth 14

  apply_report-Keeps :
      (st : OtaDeviceReportStatus) (q d c : ℕ) (code : Option ℕ) (msg : List ℕ)
      → Keeps R (apply_report st q d c code msg)
  unfolding apply_report get_campaign get_firmware
  apply_report-Keeps report_downloaded q d c code msg =
      search (keep_rules, k.preorder, k.by_downloaded) depth 12
  apply_report-Keeps report_installed q d c code msg =
      bind-Keeps k.preorder _ _ (k.by_installed q c d) λ rows. installed_version-Keeps q d c rows
  apply_report-Keeps report_failed q d c code msg =
      search (keep_rules, k.preorder, k.by_failed) depth 12
  apply_report-Keeps invalid q d c code msg = search (keep_rules, k.preorder) depth 12

  pub apply_ota_device_report-Keeps :
      (q d c : ℕ) (st : OtaDeviceReportStatus) (code : Option ℕ) (msg : List ℕ)
      → Keeps R (apply_ota_device_report q d c st code msg)
  unfolding apply_ota_device_report get_device_assignment
  apply_ota_device_report-Keeps q d c st code msg =
      search (keep_rules, k.preorder, apply_report-Keeps, try_auto_complete-Keeps) depth 12

  module _ (by_set : (c d : ℕ) → Keeps R (set_assignment_status c d installed)) where
    install_if-Keeps : (q d : ℕ) (j : Joined) (b : Bool) → Keeps R (install_if b q d j)
    unfolding install_if
    install_if-Keeps q d j false = search (keep_rules, k.preorder) depth 12
    install_if-Keeps q d j true =
        search (keep_rules, k.preorder, by_set, try_auto_complete-Keeps) depth 12

    compare_and_install-Keeps :
        (q d : ℕ) (v : List ℕ) (o : Option Joined) → Keeps R (compare_and_install q d v o)
    unfolding compare_and_install
    compare_and_install-Keeps q d v none = search (keep_rules, k.preorder) depth 12
    compare_and_install-Keeps q d v (some j) =
        bind-Keeps k.preorder _ _ (equal_fold_of-Keeps k.preorder _ _) λ b. install_if-Keeps q d j b

    pub on_device_report_firmware-Keeps :
        (q d : ℕ) (v : List ℕ) → Keeps R (on_device_report_firmware q d v)
    unfolding on_device_report_firmware find_in_progress
    on_device_report_firmware-Keeps q d v =
        search (keep_rules, k.preorder, compare_and_install-Keeps) depth 12
