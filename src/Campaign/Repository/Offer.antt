-- ===== src/Campaign/Repository/Offer.antt =====
-- The joins that look for a device's rollout: `FindActivePendingOffer` of
-- internal/domain/campaign/repository/repository.go and the query of `OnDeviceReportFirmware` in
-- service/service.go.
use firmflow.Base.{
  ℕ, Bool, ◌&&◌, ◌||◌, if◌then◌else◌, Option, none, some, List, [], ◌∷◌, ◌==◌, ltb, filter,
  concat_map,
}
use firmflow.Store.{query}
use firmflow.Model.{
  Campaign, CampaignDeviceAssignment, Firmware, Tables, active, pending, offered, downloaded,
}
use firmflow.Db.{Db, live}
use firmflow.Campaign.State.{same_status, same_assignment}

-- One row of `assignments ⨝ campaigns ⨝ firmwares`.
pub record Joined : Type 0 where
  pub assignment : CampaignDeviceAssignment
  pub campaign : Campaign
  pub firmware : Firmware

with_firmwares : Tables → CampaignDeviceAssignment → Campaign → List Joined
with_firmwares t a c =
    concat_map
      (λ f.
        if (f.id == c.firmware_id) && live f.deleted_at
        then record { assignment = a; campaign = c; firmware = f } ∷ []
        else [])
      t.firmwares

with_campaigns : Tables → CampaignDeviceAssignment → List Joined
unfolding with_firmwares
with_campaigns t a =
    concat_map
      (λ c. if (c.id == a.campaign_id) && live c.deleted_at then with_firmwares t a c else [])
      t.campaigns

unfoldable pub joined_rows : Tables → List Joined
unfolding with_campaigns
joined_rows t = concat_map (with_campaigns t) t.assignments

-- `c.project_id = ? AND a.device_id = ? AND c.status = 'active'`.
abbrev pub of_active_device : ℕ → ℕ → Joined → Bool
of_active_device project_id device_id j =
    (j.campaign.project_id == project_id)
    && ((j.assignment.device_id == device_id) && same_status j.campaign.status active)

abbrev pub offerable : ℕ → ℕ → Joined → Bool
offerable project_id device_id j =
    of_active_device project_id device_id j
    && (same_assignment j.assignment.status pending || same_assignment j.assignment.status offered)

abbrev pub in_progress : ℕ → ℕ → Joined → Bool
in_progress project_id device_id j =
    of_active_device project_id device_id j
    && (same_assignment j.assignment.status offered
        || same_assignment j.assignment.status downloaded)

-- `ORDER BY c.created_at ASC, c.id ASC`.
unfoldable pub older : Joined → Joined → Bool
older j k =
    ltb j.campaign.created_at k.campaign.created_at
    || ((j.campaign.created_at == k.campaign.created_at) && ltb j.campaign.id k.campaign.id)

-- `CASE WHEN a.status = 'pending' THEN 0 ELSE 1 END`.
unfoldable pub offer_rank : Joined → ℕ
offer_rank j = if same_assignment j.assignment.status pending then 0 else 1

unfoldable pub before_in_offers : Joined → Joined → Bool
unfolding offer_rank older
before_in_offers j k =
    ltb (offer_rank j) (offer_rank k) || ((offer_rank j == offer_rank k) && older j k)

-- `LIMIT 1`: the first row of an order.
earliest : (Joined → Joined → Bool) → Joined → List Joined → Joined
earliest before j [] = j
earliest before j (k ∷ ks) = earliest before (if before k j then k else j) ks

unfoldable pub limit_1 : (Joined → Joined → Bool) → List Joined → Option Joined
unfolding earliest
limit_1 before [] = none
limit_1 before (j ∷ js) = some (earliest before j js)

-- A row whose campaign id is `uuid.Nil` reads as no row.
unfoldable pub non_nil_campaign : Option Joined → Option Joined
non_nil_campaign none = none
non_nil_campaign (some j) = if j.campaign.id == 0 then none else some j

unfoldable pub find_active_pending_offer : ℕ → ℕ → Db (Option Joined)
unfolding joined_rows before_in_offers limit_1 non_nil_campaign
find_active_pending_offer project_id device_id = query λ t.
    non_nil_campaign
      (limit_1 before_in_offers (filter (offerable project_id device_id) (joined_rows t)))

unfoldable pub find_in_progress : ℕ → ℕ → Db (Option Joined)
unfolding joined_rows older limit_1 non_nil_campaign
find_in_progress project_id device_id = query λ t.
    non_nil_campaign (limit_1 older (filter (in_progress project_id device_id) (joined_rows t)))
