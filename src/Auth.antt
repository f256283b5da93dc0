-- ===== src/Auth.antt =====
-- Accounts and sign-in: internal/domain/auth. `Password` is security/password.go, `Repository` is
-- repository/repository.go, `Service` is service/service.go; `External` lists what the cryptography
-- and the Unicode tables give, which are libraries.
mod Tests
pub mod External
pub mod Password
pub mod Repository
pub mod Service
pub mod History
pub mod Frame
pub mod Requests
pub mod Spent
pub mod Once
pub mod Lockout
pub mod SignIn
