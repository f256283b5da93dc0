-- ===== src/Campaign/Frame/Create.antt =====
-- The same for `CreateCampaign`, whose only writes are the bundle and the audit log.
use firmflow.Base.{ℕ, Option, List, [], ◌∷◌}
use firmflow.Base.Int.{ℤ}
use firmflow.Store.{Keeps, keep_rules}
use firmflow.Model.{Campaign, Firmware, Tables, RolloutKind, immediate}
use firmflow.Device.Scope.{
  get_firmware, list_device_ids_in_groups_for_project, list_device_ids_explicit_in_project,
  filter_device_ids_by_compatible_types, device_group_exists_in_project,
  list_device_type_ids_for_firmware,
}
use firmflow.Campaign.Repository.{get_campaign}
use firmflow.Campaign.Repository.Bundle.{create_campaign_bundle}
use firmflow.Campaign.Service.Create.{
  CreateCampaignInput, check_rollout, check_groups, check_input, compatible_devices,
  create_campaign,
}
use firmflow.Campaign.Frame.{
  KeptByWrites, authorize_project-Keeps, ensure_project_not_archived-Keeps,
}

module _ (R : Tables → Tables → Type 0) (k : KeptByWrites R)
    (by_bundle : (c : Campaign) (gs ds as' : List ℕ)
      → Keeps R (create_campaign_bundle c gs ds as')) where
  check_rollout-Keeps :
      (r : RolloutKind) (p : Option ℤ) (s : Option ℕ) → Keeps R (check_rollout r p s)
  unfolding check_rollout
  check_rollout-Keeps immediate p s = search (keep_rules, k.preorder) depth 12
  check_rollout-Keeps _ p s = search (keep_rules, k.preorder) depth 12

  check_groups-Keeps : (q : ℕ) (gs : List ℕ) → Keeps R (check_groups q gs)
  unfolding check_groups device_group_exists_in_project
  check_groups-Keeps q [] = search (keep_rules, k.preorder) depth 12
  check_groups-Keeps q (g ∷ gs) =
      let rest = check_groups-Keeps q gs in search (keep_rules, k.preorder, rest) depth 12

  from_groups-Keeps : (q : ℕ) (gs : List ℕ) → Keeps R (list_device_ids_in_groups_for_project q gs)
  unfolding list_device_ids_in_groups_for_project
  from_groups-Keeps q [] = search (keep_rules, k.preorder) depth 12
  from_groups-Keeps q _ = search (keep_rules, k.preorder) depth 12

  from_explicit-Keeps : (q : ℕ) (ds : List ℕ) → Keeps R (list_device_ids_explicit_in_project q ds)
  unfolding list_device_ids_explicit_in_project
  from_explicit-Keeps q [] = search (keep_rules, k.preorder) depth 12
  from_explicit-Keeps q _ = search (keep_rules, k.preorder) depth 12

  filter-Keeps : (q : ℕ) (ds ts : List ℕ) → Keeps R (filter_device_ids_by_compatible_types q ds ts)
  unfolding filter_device_ids_by_compatible_types
  filter-Keeps q [] ts = search (keep_rules, k.preorder) depth 12
  filter-Keeps q (d ∷ ds) [] = search (keep_rules, k.preorder) depth 12
  filter-Keeps q (d ∷ ds) (t ∷ ts) = search (keep_rules, k.preorder) depth 12

  compatible_devices-Keeps :
      (q : ℕ) (i : CreateCampaignInput) (f : Firmware) → Keeps R (compatible_devices q i f)
  unfolding compatible_devices list_device_type_ids_for_firmware
  compatible_devices-Keeps q i f =
      search (keep_rules, k.preorder, from_groups-Keeps, from_explicit-Keeps, filter-Keeps) depth 20

  check_input-Keeps : (i : CreateCampaignInput) → Keeps R (check_input i)
  unfolding check_input
  check_input-Keeps i = search (keep_rules, k.preorder, check_rollout-Keeps) depth 16

  pub create_campaign-Keeps : (a q : ℕ) (i : CreateCampaignInput) → Keeps R (create_campaign a q i)
  unfolding create_campaign get_firmware get_campaign
  create_campaign-Keeps a q i =
      search
        (
          keep_rules,
          k.preorder,
          k.by_audit,
          authorize_project-Keeps R k,
          ensure_project_not_archived-Keeps R k,
          check_input-Keeps,
          check_groups-Keeps,
          compatible_devices-Keeps,
          by_bundle,
        )
        depth 30
