-- ===== src/Rbac.antt =====
-- Project-scoped access control: internal/domain/rbac. `Repository` is repository/, `Authorizer` is
-- service/authorizer.go, `Project` is service/project_service.go with project_policy.go.
pub mod Repository
pub mod Authorizer
pub mod Project
pub mod Owners
mod Tests
