-- ===== src/Campaign/Repository/Bundle/Batches.antt =====
-- What `CreateCampaignBundle` (internal/domain/campaign/repository/repository.go) stores.
use firmflow.Base.{ℕ, ◌≡◌, List, [], ◌∷◌, ◌++◌, map}
use firmflow.Store.Partial.{Returns}
use firmflow.Model.{Tables, Campaign, CampaignTargetGroup, CampaignTargetDevice}
use firmflow.Db.{Db}
use firmflow.Campaign.Repository.Bundle.{pending_row}

abbrev pub group_row : ℕ → ℕ → ℕ → CampaignTargetGroup
group_row c at g = record { campaign_id = c; device_group_id = g; created_at = at }

abbrev pub device_row : ℕ → ℕ → ℕ → CampaignTargetDevice
device_row c at d = record { campaign_id = c; device_id = d; created_at = at }

abbrev with_campaign : Campaign → Tables → Tables
with_campaign c t = record t { campaigns = t.campaigns ++ (c ∷ []) }

abbrev with_groups : ℕ → ℕ → List ℕ → Tables → Tables
with_groups c at gs t = record t {
  campaign_target_groups = t.campaign_target_groups ++ map (group_row c at) gs;
}

abbrev with_devices : ℕ → ℕ → List ℕ → Tables → Tables
with_devices c at ds t = record t {
  campaign_target_devices = t.campaign_target_devices ++ map (device_row c at) ds;
}

abbrev with_assignments : ℕ → ℕ → List ℕ → Tables → Tables
with_assignments c at ds t = record t { assignments = t.assignments ++ map (pending_row c at) ds }

-- From just these tables to just those.
abbrev Leads : Tables → Db (Unit {0}) → Tables → Type 0
Leads s m u = Returns (λ t. t ≡ s) m (λ x t. t ≡ u)

-- The tables with the campaign, its targets and one pending assignment per device behind the rows
-- that were there.
abbrev pub bundled : Campaign → ℕ → List ℕ → List ℕ → List ℕ → Tables → Tables
bundled c at group_ids device_ids assignment_device_ids t = record t {
  campaigns = t.campaigns ++ (c ∷ []);
  campaign_target_groups = t.campaign_target_groups ++ map (group_row c.id at) group_ids;
  campaign_target_devices = t.campaign_target_devices ++ map (device_row c.id at) device_ids;
  assignments = t.assignments ++ map (pending_row c.id at) assignment_device_ids;
}
