-- ===== src/Device.antt =====
-- Devices: internal/domain/device. `Types` has the device types, `Tokens` the devices and their
-- tokens (repository/repository.go), `Service` the operations on them (service/service.go),
-- `Download` repository/ota_download_token.go, `Scope` repository/campaign_scope.go and what else a
-- rollout calls. `Gate` is about who gets in.
mod Tests
pub mod Scope
pub mod Types
pub mod Tokens
pub mod Service
pub mod Download
pub mod Gate
