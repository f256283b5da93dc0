-- ===== src/Campaign/Repository/Bundle.antt =====
-- `CreateCampaignBundle` of internal/domain/campaign/repository/repository.go: the campaign, its
-- targets and its assignments in one transaction.
pub mod Batches
use firmflow.Base.{
  ℕ, zero, suc, ◌&&◌, ◌||◌, distinct, ltb, List, [], ◌∷◌, ◌++◌, map, ◌==◌, any, length, take, drop,
  none,
}
use firmflow.Store.{◌>>=◌, ◌>>◌, pure, now, exec_unique, transaction}
use firmflow.Model.{Campaign, CampaignDeviceAssignment, pending, insert_row}
use firmflow.Db.{Db}

unfoldable pub insert_campaign : Campaign → Db (Unit {0})
insert_campaign c =
    exec_unique (λ t. any (λ d. d.id == c.id) t.campaigns)
      λ t. (record t { campaigns = insert_row c t.campaigns }, tt)

unfoldable pub insert_target_groups : ℕ → ℕ → List ℕ → Db (Unit {0})
insert_target_groups campaign_id at [] = pure tt
insert_target_groups campaign_id at (g ∷ gs) = do
  exec_unique
      (λ t.
        any (λ r. (r.campaign_id == campaign_id) && (r.device_group_id == g))
          t.campaign_target_groups)
      λ t. (
        record t {
          campaign_target_groups =
              insert_row
                (record { campaign_id = campaign_id; device_group_id = g; created_at = at })
                t.campaign_target_groups;
        },
        tt,
      )
  insert_target_groups campaign_id at gs

unfoldable pub insert_target_devices : ℕ → ℕ → List ℕ → Db (Unit {0})
insert_target_devices campaign_id at [] = pure tt
insert_target_devices campaign_id at (d ∷ ds) = do
  exec_unique
      (λ t.
        any (λ r. (r.campaign_id == campaign_id) && (r.device_id == d)) t.campaign_target_devices)
      λ t. (
        record t {
          campaign_target_devices =
              insert_row (record { campaign_id = campaign_id; device_id = d; created_at = at })
                t.campaign_target_devices;
        },
        tt,
      )
  insert_target_devices campaign_id at ds

unfoldable pub pending_row : ℕ → ℕ → ℕ → CampaignDeviceAssignment
pending_row campaign_id at device_id = record {
  campaign_id = campaign_id;
  device_id = device_id;
  status = pending;
  last_report_code = none;
  last_report_msg = [];
  created_at = at;
  updated_at = at;
}

-- One statement inserts a chunk; the primary key refuses a device that stands twice in it or that
-- the campaign already has.
unfoldable pub insert_chunk : ℕ → ℕ → List ℕ → Db (Unit {0})
unfolding pending_row
insert_chunk campaign_id at chunk =
    exec_unique
      (λ t.
        ltb (length (distinct chunk)) (length chunk)
        || any (λ d. any (λ r. (r.campaign_id == campaign_id) && (r.device_id == d)) t.assignments)
            chunk)
      λ t. (record t { assignments = t.assignments ++ map (pending_row campaign_id at) chunk }, tt)

abbrev pub batch : ℕ
batch = 200

-- `for i := 0; i < len(ids); i += batch`, on fuel: the length of the list is enough.
unfoldable pub insert_assignments : ℕ → ℕ → ℕ → List ℕ → Db (Unit {0})
insert_assignments fuel campaign_id at [] = pure tt
insert_assignments zero campaign_id at (d ∷ ds) = pure tt
insert_assignments (suc fuel) campaign_id at (d ∷ ds) = do
  insert_chunk campaign_id at (take batch (d ∷ ds))
  insert_assignments fuel campaign_id at (drop batch (d ∷ ds))

unfoldable pub create_campaign_bundle : Campaign → List ℕ → List ℕ → List ℕ → Db (Unit {0})
unfolding insert_campaign insert_target_groups insert_target_devices insert_chunk insert_assignments
    pending_row
create_campaign_bundle c group_ids device_ids assignment_device_ids = do
  at ← now
  transaction do
    insert_campaign c
    insert_target_groups c.id at group_ids
    insert_target_devices c.id at device_ids
    insert_assignments (length assignment_device_ids) c.id at assignment_device_ids
