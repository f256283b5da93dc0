-- ===== src/Lib.antt =====
-- Firmflow OTA backend: the rollout of firmware to fleets of devices, modelled and verified.
--
-- The program keeps projects, their members and roles, devices, firmware and campaigns in a
-- database. HTTP handlers, a binary TCP protocol for devices and a scheduler call the services of
-- the domains; each service checks the caller's permission, then reads and writes rows.
--
-- Base: numbers, lists, bytes of text; tables that grow. Store: what a service runs in. A service
--   method is a function of a world: the tables, a count of the outside events so far, and an
--   environment that says of each event whether the statement fails, which UUID is drawn and what
--   the clock reads (internal/common/errors/errors.go is here too). gorm, the database, uuid and
--   the clock are thus parameters; what is written out is the WHERE, SET, ORDER BY and join of each
--   statement that the code sends, and that a failed transaction leaves no trace. A statement fails
--   with no effect or does what its text says; `First` takes the first row of a table that fits, and
--   the keys that are looked up have one. Calls of the service run one after the other.
-- Model: the rows (internal/domain/*/model). Db: the audit log.
-- Rbac: internal/domain/rbac: memberships, the authorizer, and of the project service the creation,
--   update, archive and deletion of a project, invitations, the change and removal of a member and the
--   transfer of ownership. Device: internal/domain/device without groups, filters and bulk actions.
-- Firmware: the download by a token (internal/domain/firmware).
-- Auth: internal/domain/auth: accounts, sessions, tokens that are used once, the lock of an address
--   after failed logins, the second factor. `External` has what libraries give: lower case, SHA-256,
--   bcrypt, AES-GCM, TOTP, random bytes and the signature of an access token. `Request` lists the
--   calls of the service that write; a refusal by a unique index is an error of its own.
-- Campaign: internal/domain/campaign, the state machine, the choice of devices, the statements, the
--   service. `Request` lists the calls of the service that write.
-- Devotcp: internal/transport/devotcp/protocol.go, and of handler.go what is sent for an offer. A
--   function of it returns, fails or panics (a slice out of range), and the reader is the list of the
--   bytes to come; a writer takes as many bytes as it has room for. strings.TrimSpace and ToValidUTF8
--   are written out in Base.Text and Utf8.
-- Sample and the modules named Tests hold concrete inputs.
--
-- Bounds and fuel: `insert_assignments` inserts chunks of 200 on fuel, which its caller sets to the
-- number of devices. Go's `int` is not bounded here; the values met (counts of rows, percentages of
-- them) stay far below 2 ^ 63.
--
-- Not modelled: HTTP routing and JSON, gorm and SQL themselves, logging, mail, configuration, and
-- the components that the manifest lists as such. Error details, which are only shown to the
-- client, and audit metadata are left out. Strings.EqualFold is a parameter.
pub mod Base
pub mod Store
pub mod Model
pub mod Campaign
pub mod Db
pub mod Rbac
pub mod Device
pub mod Firmware
pub mod Devotcp
pub mod Auth
mod Sample
