-- ===== src/Campaign/State.antt =====
-- internal/domain/campaign/model/state.go: the life cycle of a campaign.
pub mod Graph
use firmflow.Base.{Bool, true, false, ◌||◌, ◌&&◌, not, if◌then◌else◌, str_eq}
use firmflow.Model.{
  Status, draft, scheduled, active, paused, cancelled, completed, other, AssignmentStatus, pending,
  offered, downloaded, installed, failed,
}

-- `==` on the texts of the status column.
unfoldable pub same_status : Status → Status → Bool
same_status draft draft = true
same_status scheduled scheduled = true
same_status active active = true
same_status paused paused = true
same_status cancelled cancelled = true
same_status completed completed = true
same_status (other s) (other t) = str_eq s t
same_status _ _ = false

unfoldable pub same_assignment : AssignmentStatus → AssignmentStatus → Bool
same_assignment pending pending = true
same_assignment offered offered = true
same_assignment downloaded downloaded = true
same_assignment installed installed = true
same_assignment failed failed = true
same_assignment _ _ = false

unfoldable pub terminal_assignment : AssignmentStatus → Bool
terminal_assignment installed = true
terminal_assignment failed = true
terminal_assignment _ = false

-- The `switch from` of `CanTransition`.
allowed : Status → Status → Bool
unfolding same_status
allowed draft to = same_status to scheduled || (same_status to active || same_status to cancelled)
allowed scheduled to = same_status to active || same_status to cancelled
allowed active to = same_status to paused || (same_status to cancelled || same_status to completed)
allowed paused to = same_status to active || same_status to cancelled
allowed completed to = false
allowed cancelled to = false
allowed (other s) to = false

unfoldable pub can_transition : Status → Status → Bool
unfolding allowed same_status
can_transition from to = if same_status from to then true else allowed from to

unfoldable pub is_blocking_project_delete : Status → Bool
unfolding same_status
is_blocking_project_delete status =
    not (same_status status completed) && not (same_status status cancelled)
