-- ===== src/Campaign/Lifecycle.antt =====
-- What every operation of the campaign service keeps of the campaigns, whatever it returns.
pub mod Bundle
use firmflow.Base.{
  ℕ, zero, suc, Bool, true, false, ◌≡◌, refl, ◌∙◌, Option, none, some, List, [], ◌∷◌, ◌++◌, drop,
  arith, ◌&&◌, subst, sym, elem,
}
use firmflow.Base.Grows.{Grows, Grows-refl, Grows-trans, Grows-append}
use firmflow.Store.{Keeps, IsPreorder, keep_rules, exec-Keeps, exec_unique-Keeps}
use firmflow.Model.{
  Campaign, Tables, Status, draft, scheduled, active, paused, cancelled, completed,
  update_where-Grows, AssignmentStatus, installed,
}
use firmflow.Db.{audit, append_audit_log, live}
use firmflow.Campaign.State.{same_status}
use firmflow.Campaign.State.Graph.{
  Edge, Walk, here, step, Walk-trans, same_status_iff, pause, resume, stop, complete, activate,
  discard, unschedule, abandon,
}
use firmflow.Campaign.Repository.{
  of_campaign, in_status, can_be_cancelled, update_campaigns, update_assignments,
  pause_campaign_row, resume_campaign_row, cancel_campaign_row, mark_campaign_completed,
  activate_ids, activate_due_scheduled_campaigns, update_assignment_status, apply_if_active,
  apply_ota_downloaded, apply_ota_installed, apply_ota_failed, apply_assignment_status,
  is_campaign_active_in_project, set_assignment_status,
}
use firmflow.Campaign.Repository.Bundle.{
  create_campaign_bundle, insert_campaign, insert_target_groups, insert_target_devices,
  insert_chunk, insert_assignments, batch,
}
use firmflow.Campaign.Frame.{KeptByWrites}
use firmflow.Device.Scope.{update_device_seen_and_firmware}

-- The status walks along the life cycle; what the campaign is about stays.
pub record Advances (c d : Campaign) : Type 0 where
  pub same_id : d.id ≡ c.id
  pub same_project : d.project_id ≡ c.project_id
  pub same_firmware : d.firmware_id ≡ c.firmware_id
  pub same_kind : d.rollout_kind ≡ c.rollout_kind
  pub same_percent : d.rollout_percent ≡ c.rollout_percent
  pub same_start : d.scheduled_start_at ≡ c.scheduled_start_at
  pub same_target : d.target_device_count ≡ c.target_device_count
  pub same_deleted : d.deleted_at ≡ c.deleted_at
  pub walk : Walk c.status d.status

pub Advances-refl : (c : Campaign) → Advances c c
Advances-refl c = record {
  same_id = refl;
  same_project = refl;
  same_firmware = refl;
  same_kind = refl;
  same_percent = refl;
  same_start = refl;
  same_target = refl;
  same_deleted = refl;
  walk = here;
}

pub Advances-trans : (c d e : Campaign) → Advances c d → Advances d e → Advances c e
Advances-trans c d e h k = record {
  same_id = k.same_id ∙ h.same_id;
  same_project = k.same_project ∙ h.same_project;
  same_firmware = k.same_firmware ∙ h.same_firmware;
  same_kind = k.same_kind ∙ h.same_kind;
  same_percent = k.same_percent ∙ h.same_percent;
  same_start = k.same_start ∙ h.same_start;
  same_target = k.same_target ∙ h.same_target;
  same_deleted = k.same_deleted ∙ h.same_deleted;
  walk = Walk-trans h.walk k.walk;
}

abbrev pub CampaignsAdvance : Tables → Tables → Type 0
CampaignsAdvance t u = Grows Advances t.campaigns u.campaigns

pub advance : IsPreorder CampaignsAdvance
advance = record {
  refl' = λ t. Grows-refl Advances Advances-refl t.campaigns;
  trans' = λ t u v. Grows-trans Advances Advances-trans t.campaigns u.campaigns v.campaigns;
}

update_campaigns-Keeps :
    (p : Campaign → Bool) (f : Campaign → Campaign)
    → ((c : Campaign) → p c ≡ true → Advances c (f c))
    → Keeps CampaignsAdvance (update_campaigns p f)
unfolding update_campaigns
update_campaigns-Keeps p f h =
    exec-Keeps advance _ (λ t. update_where-Grows Advances p f Advances-refl h t.campaigns)

and_right : (a b : Bool) → (a && b) ≡ true → b ≡ true
and_right a b h = ground arith

move :
    (c d : Campaign) {s t : Status}
    → c.status ≡ s
    → d.status ≡ t
    → Edge s t
    → Walk c.status d.status
move c d {s} e f g =
    subst (λ x. Walk x d.status) (sym e) (subst (λ x. Walk s x) (sym f) (step g here))

-- An update of the status along an arrow, which may also stamp the times.
Edge-Advances :
    (c d : Campaign) {s t : Status}
    → c.status ≡ s
    → d.status ≡ t
    → Edge s t
    → (d.id ≡ c.id)
      × (d.project_id ≡ c.project_id)
      × (d.firmware_id ≡ c.firmware_id)
      × (d.rollout_kind ≡ c.rollout_kind)
      × (d.rollout_percent ≡ c.rollout_percent)
      × (d.scheduled_start_at ≡ c.scheduled_start_at)
      × (d.target_device_count ≡ c.target_device_count)
      × (d.deleted_at ≡ c.deleted_at)
    → Advances c d
Edge-Advances c d e f g (a, b, k, l, m, n, o, q) = record {
  same_id = a;
  same_project = b;
  same_firmware = k;
  same_kind = l;
  same_percent = m;
  same_start = n;
  same_target = o;
  same_deleted = q;
  walk = move c d e f g;
}

paused-Advances :
    (at : ℕ) (c : Campaign)
    → c.status ≡ active
    → Advances c (record c { status = paused; paused_at = some at; updated_at = at })
paused-Advances at c e =
    Edge-Advances c _ e refl pause (refl, refl, refl, refl, refl, refl, refl, refl)

resumed-Advances :
    (at : ℕ) (c : Campaign)
    → c.status ≡ paused
    → Advances c (record c { status = active; paused_at = none; updated_at = at })
resumed-Advances at c e =
    Edge-Advances c _ e refl resume (refl, refl, refl, refl, refl, refl, refl, refl)

completed-Advances :
    (at : ℕ) (c : Campaign)
    → c.status ≡ active
    → Advances c (record c { status = completed; completed_at = some at; updated_at = at })
completed-Advances at c e =
    Edge-Advances c _ e refl complete (refl, refl, refl, refl, refl, refl, refl, refl)

activated-Advances :
    (at : ℕ) (c : Campaign)
    → c.status ≡ scheduled
    → Advances c (record c { status = active; activated_at = some at; updated_at = at })
activated-Advances at c e =
    Edge-Advances c _ e refl activate (refl, refl, refl, refl, refl, refl, refl, refl)

can_be_cancelled-Edge : (s : Status) → can_be_cancelled s ≡ true → Edge s cancelled
unfolding same_status
can_be_cancelled-Edge draft h = discard
can_be_cancelled-Edge scheduled h = unschedule
can_be_cancelled-Edge active h = stop
can_be_cancelled-Edge paused h = abandon
can_be_cancelled-Edge _ h = cc

cancelled-Advances :
    (at : ℕ) (c : Campaign)
    → can_be_cancelled c.status ≡ true
    → Advances c (record c { status = cancelled; cancelled_at = some at; updated_at = at })
cancelled-Advances at c e =
    Edge-Advances c _ refl refl (can_be_cancelled-Edge c.status e)
      (refl, refl, refl, refl, refl, refl, refl, refl)

in_status-status :
    (project_id campaign_id : ℕ) (s : Status) (c : Campaign)
    → in_status project_id campaign_id s c ≡ true
    → c.status ≡ s
in_status-status project_id campaign_id s c h = (same_status_iff c.status s).0 (and_right _ _ h)

scheduled_row :
    (is : List ℕ) (c : Campaign)
    → (elem c.id is && (same_status c.status scheduled && live c.deleted_at)) ≡ true
    → c.status ≡ scheduled
scheduled_row is c h = (same_status_iff c.status scheduled).0 (ground arith)

pub unchanged : (cs : List Campaign) → Grows Advances cs cs
unchanged = Grows-refl Advances Advances-refl

pub ruleset kept = (keep_rules, advance, exec-Keeps, exec_unique-Keeps, unchanged)

ruleset moved = (
  kept, update_campaigns-Keeps, paused-Advances, resumed-Advances, completed-Advances,
  activated-Advances, cancelled-Advances,
)

activate_ids-Keeps : (at : ℕ) (is : List ℕ) → Keeps CampaignsAdvance (activate_ids at is)
unfolding activate_ids
activate_ids-Keeps at [] = search kept depth 12
activate_ids-Keeps at (i ∷ is) = search (moved, scheduled_row (i ∷ is)) depth 12

apply_if_active-Keeps :
    (b : Bool) (c d : ℕ) (from : List AssignmentStatus) (to : AssignmentStatus) (code : Option ℕ)
    (msg : List ℕ)
    → Keeps CampaignsAdvance (apply_if_active b c d from to code msg)
unfolding apply_if_active update_assignments
apply_if_active-Keeps false c d from to code msg = search kept depth 12
apply_if_active-Keeps true c d from to code msg = search kept depth 12

pub campaign_writes : KeptByWrites CampaignsAdvance
unfolding audit append_audit_log pause_campaign_row resume_campaign_row cancel_campaign_row
    mark_campaign_completed activate_due_scheduled_campaigns update_assignment_status
    update_assignments apply_ota_downloaded apply_ota_installed apply_ota_failed
    apply_assignment_status is_campaign_active_in_project update_device_seen_and_firmware
campaign_writes = record {
  preorder = advance;
  by_audit = λ a e p. search kept depth 12;
  by_pause = λ p c. search (moved, in_status-status p c active) depth 12;
  by_resume = λ p c. search (moved, in_status-status p c paused) depth 12;
  by_cancel = λ p c.
      search (moved, λ (x : Campaign). and_right (of_campaign p c x) (can_be_cancelled x.status))
        depth 12;
  by_complete = λ p c. search (moved, in_status-status p c active) depth 12;
  by_activate = λ at. search (kept, activate_ids-Keeps) depth 12;
  by_offered = λ c d. search kept depth 12;
  by_downloaded = λ p c d. search (kept, apply_if_active-Keeps) depth 12;
  by_installed = λ p c d. search (kept, apply_if_active-Keeps) depth 12;
  by_failed = λ p c d code msg. search (kept, apply_if_active-Keeps) depth 12;
  by_seen = λ p d v at s. search kept depth 12;
}

pub set_installed-Keeps : (c d : ℕ) → Keeps CampaignsAdvance (set_assignment_status c d installed)
unfolding set_assignment_status update_assignments
set_installed-Keeps c d = search kept depth 12
