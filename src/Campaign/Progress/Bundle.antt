-- ===== src/Campaign/Progress/Bundle.antt =====
-- `CreateCampaignBundle` adds its assignments behind the others.
use firmflow.Base.{ℕ, zero, suc, List, [], ◌∷◌, ◌++◌, drop}
use firmflow.Base.Grows.{Grows, Grows-append}
use firmflow.Store.{Keeps}
use firmflow.Model.{Campaign, CampaignDeviceAssignment}
use firmflow.Campaign.Repository.Bundle.{
  create_campaign_bundle, insert_campaign, insert_target_groups, insert_target_devices,
  insert_chunk, insert_assignments, batch,
}
use firmflow.Campaign.Progress.{Progress, Progress-refl, AssignmentsProgress, kept}

insert_target_groups-Keeps :
    (c at : ℕ) (gs : List ℕ) → Keeps AssignmentsProgress (insert_target_groups c at gs)
unfolding insert_target_groups
insert_target_groups-Keeps c at [] = search kept depth 12
insert_target_groups-Keeps c at (g ∷ gs) =
    let rest = insert_target_groups-Keeps c at gs in search (kept, rest) depth 12

insert_target_devices-Keeps :
    (c at : ℕ) (ds : List ℕ) → Keeps AssignmentsProgress (insert_target_devices c at ds)
unfolding insert_target_devices
insert_target_devices-Keeps c at [] = search kept depth 12
insert_target_devices-Keeps c at (d ∷ ds) =
    let rest = insert_target_devices-Keeps c at ds in search (kept, rest) depth 12

more : (xs ys : List CampaignDeviceAssignment) → Grows Progress xs (xs ++ ys)
more = Grows-append Progress Progress-refl

insert_chunk-Keeps : (c at : ℕ) (ds : List ℕ) → Keeps AssignmentsProgress (insert_chunk c at ds)
unfolding insert_chunk
insert_chunk-Keeps c at ds = search (kept, more) depth 12

insert_assignments-Keeps :
    (fuel c at : ℕ) (ds : List ℕ) → Keeps AssignmentsProgress (insert_assignments fuel c at ds)
unfolding insert_assignments
insert_assignments-Keeps fuel c at [] = search kept depth 12
insert_assignments-Keeps zero c at (d ∷ ds) = search kept depth 12
insert_assignments-Keeps (suc fuel) c at (d ∷ ds) =
    let rest = insert_assignments-Keeps fuel c at (drop batch (d ∷ ds)) in
    search (kept, insert_chunk-Keeps, rest) depth 12

pub bundle-Keeps :
    (c : Campaign) (gs ds as' : List ℕ)
    → Keeps AssignmentsProgress (create_campaign_bundle c gs ds as')
unfolding create_campaign_bundle insert_campaign
bundle-Keeps c gs ds as' =
    search (kept, insert_target_groups-Keeps, insert_target_devices-Keeps, insert_assignments-Keeps)
      depth 14
