-- ===== src/Model.antt =====
-- The rows of the database: internal/domain/rbac/model, internal/domain/project/model,
-- internal/domain/device/model, internal/domain/firmware/model, internal/domain/campaign/model and
-- internal/domain/auth/model. A UUID is the number that its 16 bytes spell, so
-- `uuid.Nil` is 0 and the order of the printed forms is the order of the numbers; a time is a
-- number of nanoseconds; a nullable column is an `Option`; a text that the code trims or walks is
-- the list of its bytes, and one that it only compares is a `String`.
mod RbacRows
mod CampaignRows
mod DeviceRows
mod AuthRows
mod Schema
pub use RbacRows.*
pub use CampaignRows.*
pub use DeviceRows.*
pub use AuthRows.*
unfoldable pub use Schema.*
