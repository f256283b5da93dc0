-- ===== src/Firmware.antt =====
-- Firmware: internal/domain/firmware. `Download` is service/ota_download.go; `Allowed`, `Once` and
-- `Issued` are about what a download stands on, that there is one only, and that there is one;
-- `Passes` runs a download whose checks pass.
mod Tests
pub mod Download
pub mod Once
pub mod Allowed
pub mod Passes
pub mod Issued
