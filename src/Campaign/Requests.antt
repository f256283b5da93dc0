-- ===== src/Campaign/Requests.antt =====
-- The campaign service under any sequence of calls: what the HTTP handlers, the TCP handler and
-- the scheduler ask of it, in any order and with any failures of the database in between.
use firmflow.Base.{ℕ, ◌≡◌, refl, ap, ◌≤◌, sym, Option, some, List, [], ◌∷◌, find?, arith}
use firmflow.Base.Grows.{Grows-find?}
use firmflow.Store.{World, Keeps, run-Keeps}
use firmflow.Model.{
  Campaign, Tables, CampaignDeviceAssignment, AssignmentStatus, pending, offered, downloaded,
  installed, failed,
}
use firmflow.Campaign.State.Graph.{IsFinal, Walk-IsFinal}
use firmflow.Campaign.Repository.{of_campaign, of_assignment, set_assignment_status}
use firmflow.Campaign.Repository.Bundle.{create_campaign_bundle}
use firmflow.Campaign.Service.{
  pause_campaign, resume_campaign, cancel_campaign, activate_due_campaigns, build_poll_offer,
}
use firmflow.Campaign.Service.Report.{
  OtaDeviceReportStatus, apply_ota_device_report, on_device_report_firmware,
}
use firmflow.Campaign.Service.Create.{CreateCampaignInput, create_campaign}
use firmflow.Campaign.Frame.{
  KeptByWrites, pause_campaign-Keeps, resume_campaign-Keeps, cancel_campaign-Keeps,
  activate_due_campaigns-Keeps, build_poll_offer-Keeps, apply_ota_device_report-Keeps,
  on_device_report_firmware-Keeps,
}
use firmflow.Campaign.Frame.Create.{create_campaign-Keeps}
use firmflow.Campaign.Lifecycle.Bundle.{bundle-Keeps}
use firmflow.Campaign.Lifecycle.{Advances, CampaignsAdvance, campaign_writes, set_installed-Keeps}
use firmflow.Campaign.Progress
use firmflow.Campaign.Progress.{Progress, stage, AssignmentsProgress, assignment_writes}

-- The calls of the service that can write.
pub data Request : Type 0 where
  create : ℕ → ℕ → CreateCampaignInput → Request
  pause resume cancel : ℕ → ℕ → ℕ → Request
  activate_due : Request
  poll : ℕ → ℕ → Request
  ota_report : ℕ → ℕ → ℕ → OtaDeviceReportStatus → Option ℕ → List ℕ → Request
  version_report : ℕ → ℕ → List ℕ → Request

-- The world after a call, whatever the call returned.
pub serve : Request → World Tables → World Tables
serve (create a q i) w = (create_campaign a q i w).1
serve (pause a q c) w = (pause_campaign a q c w).1
serve (resume a q c) w = (resume_campaign a q c w).1
serve (cancel a q c) w = (cancel_campaign a q c w).1
serve activate_due w = (activate_due_campaigns w).1
serve (poll q d) w = (build_poll_offer q d w).1
serve (ota_report q d c st code msg) w = (apply_ota_device_report q d c st code msg w).1
serve (version_report q d v) w = (on_device_report_firmware q d v w).1

pub serve_all : List Request → World Tables → World Tables
serve_all [] w = w
serve_all (r ∷ rs) w = serve_all rs (serve r w)

-- What the writes keep, every call and every sequence of calls keeps.
module _ (R : Tables → Tables → Type 0) (k : KeptByWrites R)
    (by_bundle : (c : Campaign) (gs ds as' : List ℕ) → Keeps R (create_campaign_bundle c gs ds as'))
    (by_set : (c d : ℕ) → Keeps R (set_assignment_status c d installed)) where
  serve_kept : (r : Request) (w : World Tables) → R w.db (serve r w).db
  unfolding serve
  serve_kept (create a q i) = run-Keeps (create_campaign-Keeps R k by_bundle a q i)
  serve_kept (pause a q c) = run-Keeps (pause_campaign-Keeps R k a q c)
  serve_kept (resume a q c) = run-Keeps (resume_campaign-Keeps R k a q c)
  serve_kept (cancel a q c) = run-Keeps (cancel_campaign-Keeps R k a q c)
  serve_kept activate_due = run-Keeps (activate_due_campaigns-Keeps R k)
  serve_kept (poll q d) = run-Keeps (build_poll_offer-Keeps R k q d)
  serve_kept (ota_report q d c st code msg) =
      run-Keeps (apply_ota_device_report-Keeps R k q d c st code msg)
  serve_kept (version_report q d v) = run-Keeps (on_device_report_firmware-Keeps R k by_set q d v)

  serve_all_kept : (rs : List Request) (w : World Tables) → R w.db (serve_all rs w).db
  unfolding serve_all
  serve_all_kept [] w = k.preorder.refl' w.db
  serve_all_kept (r ∷ rs) w =
      k.preorder.trans' w.db (serve r w).db (serve_all rs (serve r w)).db (serve_kept r w)
        (serve_all_kept rs (serve r w))

-- Any sequence of calls, with any failures of the database, moves the status of each campaign only
-- along the arrows of the life cycle, and leaves what the campaign is about as it was; campaigns
-- are only added, behind the others.
pub serve_all-CampaignsAdvance :
    (rs : List Request) (w : World Tables) → CampaignsAdvance w.db (serve_all rs w).db
serve_all-CampaignsAdvance =
    serve_all_kept CampaignsAdvance campaign_writes bundle-Keeps set_installed-Keeps

-- Any sequence of calls, with any failures of the database, keeps every assignment in its place,
-- with its campaign and its device, and its status never goes back in the order pending, offered,
-- downloaded, failed, installed; assignments are only added, behind the others.
pub serve_all-AssignmentsProgress :
    (rs : List Request) (w : World Tables) → AssignmentsProgress w.db (serve_all rs w).db
serve_all-AssignmentsProgress =
    serve_all_kept AssignmentsProgress assignment_writes Progress.Bundle.bundle-Keeps
      Progress.set_installed-Keeps

of_campaign-Advances :
    (q c : ℕ) (x y : Campaign) → Advances x y → of_campaign q c y ≡ of_campaign q c x
of_campaign-Advances q c x y h = ground (arith, h.same_id, h.same_project, h.same_deleted)

-- A campaign that is completed or cancelled stays so: after any sequence of calls, with any
-- failures, the lookup that found it finds it with the same status.
pub serve_all-IsFinal :
    (rs : List Request) (w : World Tables) (project_id campaign_id : ℕ) (c : Campaign)
    → find? (of_campaign project_id campaign_id) w.db.campaigns ≡ some c
    → IsFinal c.status
    → (d : Campaign) × (find? (of_campaign project_id campaign_id) (serve_all rs w).db.campaigns
        ≡ some d)
      × (d.status ≡ c.status)
serve_all-IsFinal rs w project_id campaign_id c e h =
    let (d, f, a) =
      Grows-find? Advances (of_campaign project_id campaign_id)
        (of_campaign-Advances project_id campaign_id) w.db.campaigns (serve_all rs w).db.campaigns
        (serve_all-CampaignsAdvance rs w) c e in
    (d, f, sym (Walk-IsFinal a.walk h))

of_assignment-Progress :
    (c d : ℕ) (a b : CampaignDeviceAssignment)
    → Progress a b
    → of_assignment c d b ≡ of_assignment c d a
of_assignment-Progress c d a b h = ground (arith, h.same_campaign, h.same_device)

furthest : (s t : AssignmentStatus) → s ≡ installed → stage s ≤ stage t → t ≡ installed
furthest s installed e h = refl
furthest s pending e h = absurd (omega (arith, ap stage e, h))
furthest s offered e h = absurd (omega (arith, ap stage e, h))
furthest s downloaded e h = absurd (omega (arith, ap stage e, h))
furthest s failed e h = absurd (omega (arith, ap stage e, h))

-- A device that has installed the firmware of a campaign stays installed: after any sequence of
-- calls, with any failures, the lookup that found its assignment finds it, still installed.
pub serve_all-installed :
    (rs : List Request) (w : World Tables) (campaign_id device_id : ℕ)
    (a : CampaignDeviceAssignment)
    → find? (of_assignment campaign_id device_id) w.db.assignments ≡ some a
    → a.status ≡ installed
    → (b : CampaignDeviceAssignment) × (find?
          (of_assignment campaign_id device_id)
          (serve_all rs w).db.assignments
        ≡ some b)
      × (b.status ≡ installed)
serve_all-installed rs w campaign_id device_id a e h =
    let (b, f, g) =
      Grows-find? Progress (of_assignment campaign_id device_id)
        (of_assignment-Progress campaign_id device_id) w.db.assignments
        (serve_all rs w).db.assignments (serve_all-AssignmentsProgress rs w) a e in
    (b, f, furthest a.status b.status h g.further)
