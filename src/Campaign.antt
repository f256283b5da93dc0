-- ===== src/Campaign.antt =====
-- OTA campaigns: internal/domain/campaign. `State` is model/state.go, `Selection` is
-- service/selection.go, `Repository` is repository/, `Service` is service/ without the scheduler's
-- timer; the other modules prove what these do.
pub mod State
pub mod Selection
pub mod Repository
pub mod Service
pub mod Frame
pub mod Lifecycle
pub mod Progress
pub mod Requests
mod Tests
