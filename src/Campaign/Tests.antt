-- ===== src/Campaign/Tests.antt =====
-- The theorems on campaigns at concrete inputs, and runs of the operations.
use mathlib.Core.List.Perm
use firmflow.Base.{
  distinct, ℕ, ◌+◌, ◌*◌, ◌≤◌, ◌<◌, ◌≡◌, refl, ◌↔◌, ◌⊎◌, inr, true, some, List, [], ◌∷◌, ◌++◌, find?,
  arith, length, take,
}
use firmflow.Base.Int.{pos}
use firmflow.Store.{transaction, exec_unique, ok, query, exec, now}
use firmflow.Db.{audit}
use firmflow.Rbac.Repository.{get_membership_for_user}
use firmflow.Rbac.Authorizer.{authorize_project, role_has_permission}
use firmflow.Model.{
  Campaign, active, paused, cancelled, pending, installed, CampaignDeviceAssignment,
}
use firmflow.Sample.{world, sample, campaign_5, assignment_9}
use firmflow.Campaign.State.{same_status, can_transition, is_blocking_project_delete}
use firmflow.Campaign.State.Graph.{Edge, Walk, can_transition-Edge, blocking-Walk}
use firmflow.Campaign.Selection.{sort_uuids, take_stable_percentage}
use firmflow.Campaign.Selection.Stable.{
  take_stable_percentage-Perm, take_stable_percentage_size, take_stable_percentage_grows,
}
use firmflow.Campaign.Repository.{of_campaign, of_assignment, pause_campaign_row, update_campaigns}
use firmflow.Campaign.Repository.Bundle.{
  insert_chunk, insert_target_devices, insert_target_groups, insert_campaign,
  create_campaign_bundle, insert_assignments,
}
use firmflow.Campaign.Service.{pause_campaign}
use firmflow.Campaign.Lifecycle.{CampaignsAdvance}
use firmflow.Campaign.Requests.{
  Request, serve_all, serve_all-CampaignsAdvance, serve_all-IsFinal, serve_all-AssignmentsProgress,
  serve_all-installed,
}
use firmflow.Campaign.Progress.{AssignmentsProgress}

can_transition-Edge_example :
    (can_transition active paused ≡ true) ↔ ((active ≡ paused) ⊎ Edge active paused)
can_transition-Edge_example = can_transition-Edge active paused

blocking-Walk_example : cancelled ≡ cancelled
unfolding is_blocking_project_delete
blocking-Walk_example = blocking-Walk cancelled cancelled refl Walk.here

take_stable_percentage-Perm_example :
    take_stable_percentage (sort_uuids (3 ∷ 1 ∷ 2 ∷ [])) (pos 50)
    ≡ take_stable_percentage (sort_uuids (1 ∷ 3 ∷ 2 ∷ [])) (pos 50)
take_stable_percentage-Perm_example =
    take_stable_percentage-Perm (3 ∷ 1 ∷ 2 ∷ []) (1 ∷ 3 ∷ 2 ∷ []) (pos 50) (Perm.swap 1 3 (2 ∷ []))

take_stable_percentage_size_example :
    let chosen = take_stable_percentage (1 ∷ 2 ∷ 3 ∷ []) (pos 40) in
    (chosen ≡ take (length chosen) (1 ∷ 2 ∷ 3 ∷ []))
    × (3 * 40 ≤ 100 * length chosen)
    × (100 * length chosen < 3 * 40 + 100)
take_stable_percentage_size_example =
    take_stable_percentage_size (1 ∷ 2 ∷ 3 ∷ []) 40 (omega arith) (omega arith) (omega arith)

take_stable_percentage_grows_example :
    (more : List ℕ) × (take_stable_percentage (1 ∷ 2 ∷ 3 ∷ []) (pos 60)
      ≡ take_stable_percentage (1 ∷ 2 ∷ 3 ∷ []) (pos 20) ++ more)
take_stable_percentage_grows_example =
    take_stable_percentage_grows (1 ∷ 2 ∷ 3 ∷ []) 20 60 (omega arith) (omega arith) (omega arith)

half_of_three : take_stable_percentage (sort_uuids (3 ∷ 1 ∷ 2 ∷ [])) (pos 50) ≡ 1 ∷ 2 ∷ []
unfolding take_stable_percentage sort_uuids
half_of_three = refl

abbrev requests : List Request
requests = Request.pause 7 1 5 ∷ Request.poll 1 9 ∷ Request.resume 7 1 5 ∷ Request.poll 1 9 ∷ []

serve_all-CampaignsAdvance_example :
    CampaignsAdvance (sample active pending) (serve_all requests (world active pending)).db
serve_all-CampaignsAdvance_example = serve_all-CampaignsAdvance requests (world active pending)

serve_all-IsFinal_example :
    (d : Campaign) × (find?
        (of_campaign 1 5)
        (serve_all requests (world cancelled pending)).db.campaigns
      ≡ some d)
    × (d.status ≡ cancelled)
serve_all-IsFinal_example =
    serve_all-IsFinal requests (world cancelled pending) 1 5 (campaign_5 cancelled) refl (inr refl)

serve_all-AssignmentsProgress_example :
    AssignmentsProgress (sample active pending) (serve_all requests (world active pending)).db
serve_all-AssignmentsProgress_example =
    serve_all-AssignmentsProgress requests (world active pending)

serve_all-installed_example :
    (b : CampaignDeviceAssignment) × (find?
        (of_assignment 5 9)
        (serve_all requests (world active installed)).db.assignments
      ≡ some b)
    × (b.status ≡ installed)
serve_all-installed_example =
    serve_all-installed requests (world active installed) 5 9 (assignment_9 installed) refl refl

owner_pauses : (pause_campaign 7 1 5 (world active pending)).0 ≡ ok tt
unfolding pause_campaign authorize_project get_membership_for_user query role_has_permission
    pause_campaign_row now update_campaigns exec same_status audit
owner_pauses = refl

-- Campaign 6 for group 2 and devices 8 and 9 is stored whole.
abbrev campaign_6 : Campaign
campaign_6 = record (campaign_5 active) { id = 6 }

bundle_stored :
    (create_campaign_bundle campaign_6 (2 ∷ []) [] (8 ∷ 9 ∷ []) (world active pending)).0 ≡ ok tt
unfolding create_campaign_bundle insert_campaign insert_target_groups insert_target_devices
    insert_assignments insert_chunk exec_unique now transaction distinct
bundle_stored = refl
