-- ===== src/Campaign/State/Graph.antt =====
-- The life cycle as a graph, and what `CanTransition` decides of it.
use firmflow.Base.{String, true, false, ◌≡◌, refl, ◌↔◌, ◌⊎◌, inl, inr, arith, str_eq_iff, subst}
use firmflow.Model.{Status, draft, scheduled, active, paused, cancelled, completed, other}
use firmflow.Campaign.State.{same_status, can_transition, is_blocking_project_delete}

-- The arrows of the life cycle.
pub data Edge : Status → Status → Type 0 where
  schedule : Edge draft scheduled
  launch : Edge draft active
  discard : Edge draft cancelled
  activate : Edge scheduled active
  unschedule : Edge scheduled cancelled
  pause : Edge active paused
  stop : Edge active cancelled
  complete : Edge active completed
  resume : Edge paused active
  abandon : Edge paused cancelled

ruleset edges =
    (schedule, launch, discard, activate, unschedule, pause, stop, complete, resume, abandon)

-- A walk of any length.
pub data Walk : Status → Status → Type 0 where
  here : {s : Status} → Walk s s
  step : {s t u : Status} → Edge s t → Walk t u → Walk s u

pub Walk-trans : {s t u : Status} → Walk s t → Walk t u → Walk s u
Walk-trans here w = w
Walk-trans (step e v) w = step e (Walk-trans v w)

pub same_status_iff : (s t : Status) → (same_status s t ≡ true) ↔ (s ≡ t)
unfolding same_status
same_status_iff (other a) (other b) = ground (arith, str_eq_iff a b)
same_status_iff _ _ = ground arith

can_transition_sound : (s t : Status) → can_transition s t ≡ true → (s ≡ t) ⊎ Edge s t
unfolding can_transition
can_transition_sound (other a) (other b) h = inl (ground (arith, str_eq_iff a b))
can_transition_sound _ _ h = grind (arith, edges)

can_transition_complete : {s t : Status} → Edge s t → can_transition s t ≡ true
unfolding can_transition
can_transition_complete schedule = refl
can_transition_complete _ = refl

can_transition_self : (s : Status) → can_transition s s ≡ true
unfolding can_transition
can_transition_self (other a) = ground (arith, str_eq_iff a a)
can_transition_self _ = refl

-- `CanTransition` accepts a pair of statuses exactly when they are equal or an arrow of the life
-- cycle joins them.
pub can_transition-Edge : (s t : Status) → (can_transition s t ≡ true) ↔ ((s ≡ t) ⊎ Edge s t)
can_transition-Edge s t = (
  can_transition_sound s t,
  λ h. elim h [
    | inl e ↦ subst (λ u. can_transition s u ≡ true) e (can_transition_self s)
    | inr e ↦ can_transition_complete e
  ],
)

-- The statuses that end a life cycle.
abbrev pub IsFinal : Status → Type 0
IsFinal s = (s ≡ completed) ⊎ (s ≡ cancelled)

no-Edge : {s t : Status} → Edge s t → IsFinal s → ⊥
no-Edge schedule h = ground arith
no-Edge _ h = ground arith

pub Walk-IsFinal : {s t : Status} → Walk s t → IsFinal s → s ≡ t
Walk-IsFinal here h = refl
Walk-IsFinal (step e w) h = absurd (no-Edge e h)

blocking_can_cancel :
    (s : Status)
    → is_blocking_project_delete s ≡ true
    → Edge s cancelled ⊎ ((x : String) × (s ≡ other x))
unfolding is_blocking_project_delete
blocking_can_cancel (other a) h = inr (a, refl)
blocking_can_cancel _ h = grind (arith, edges)

pub blocking_iff : (s : Status) → (is_blocking_project_delete s ≡ false) ↔ IsFinal s
unfolding is_blocking_project_delete
blocking_iff draft = ground arith
blocking_iff _ = ground arith

-- A walk of the life cycle that starts at a status that does not block the deletion of a project
-- ends where it starts.
pub blocking-Walk : (s t : Status) → is_blocking_project_delete s ≡ false → Walk s t → s ≡ t
blocking-Walk s t h w = Walk-IsFinal w ((blocking_iff s).0 h)
