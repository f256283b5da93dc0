-- ===== src/Store.antt =====
-- How the services of the repository reach their environment: internal/common/errors/errors.go,
-- the error values of gorm, and the database handle `*gorm.DB` that every repository holds.
--
-- A service method is a function of the world that it runs in. The world holds the tables (`S`,
-- the tables that the component uses) and what the code does not decide: whether a statement
-- reaches the database, what `uuid.New` draws and what `time.Now` reads. Each is a function of
-- the number of outside events so far, so a run can meet any sequence of failures and readings.
mod Monad
mod Rules
pub mod Triple
pub mod Partial
pub mod Run
unfoldable pub use Monad.*
pub use Rules.*
