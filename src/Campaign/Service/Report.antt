-- ===== src/Campaign/Service/Report.antt =====
-- What a device reports: internal/domain/campaign/service/ota_report.go, and
-- `OnDeviceReportFirmware` of service.go.
use firmflow.Base.{
  ℕ, zero, suc, Bool, true, false, if◌then◌else◌, Option, none, some, List, [], ltb, length, take,
}
use firmflow.Base.Text.{trim_space}
use firmflow.Store.{
  ◌>>=◌, ◌>>◌, pure, fail, ignore, now, when_not_found, bad_request, not_found, equal_fold_of,
}
use firmflow.Model.{installed}
use firmflow.Db.{Db}
use firmflow.Device.Scope.{get_firmware, update_device_seen_and_firmware}
use firmflow.Campaign.Service.{try_auto_complete}
use firmflow.Campaign.Repository.{
  get_campaign, get_device_assignment, set_assignment_status, apply_ota_downloaded,
  apply_ota_installed, apply_ota_failed,
}
use firmflow.Campaign.Repository.Offer.{Joined, find_in_progress}

-- `OtaDeviceReportStatus`; `invalid` is any other text.
pub data OtaDeviceReportStatus : Type 0 where
  report_downloaded report_installed report_failed invalid : OtaDeviceReportStatus

-- `msg[:256]` after the trimming.
unfoldable pub report_message : List ℕ → List ℕ
report_message err_msg =
    let msg = trim_space err_msg in if ltb 256 (length msg) then take 256 msg else msg

-- When the install moved a row, the device takes over the version of the campaign's firmware.
unfoldable pub installed_version : ℕ → ℕ → ℕ → ℕ → Db (List ℕ)
installed_version project_id device_id campaign_id zero = pure []
installed_version project_id device_id campaign_id (suc rows) = do
  camp ← get_campaign project_id campaign_id
  fw ← when_not_found (get_firmware project_id camp.firmware_id) (not_found "firmware not found")
  at ← now
  update_device_seen_and_firmware project_id device_id (some (trim_space fw.version)) at "online"
  pure (trim_space fw.version)

-- The `switch st`.
unfoldable pub apply_report : OtaDeviceReportStatus → ℕ → ℕ → ℕ → Option ℕ → List ℕ → Db (List ℕ)
unfolding installed_version
apply_report report_downloaded project_id device_id campaign_id code msg = do
  _ ← apply_ota_downloaded project_id campaign_id device_id
  pure []
apply_report report_installed project_id device_id campaign_id code msg = do
  rows ← apply_ota_installed project_id campaign_id device_id
  installed_version project_id device_id campaign_id rows
apply_report report_failed project_id device_id campaign_id code msg = do
  _ ← apply_ota_failed project_id campaign_id device_id code msg
  pure []
apply_report invalid project_id device_id campaign_id code msg =
    fail (bad_request "invalid ota report status")

-- `ApplyOtaDeviceReport`, with the version that it returns.
unfoldable pub apply_ota_device_report :
    ℕ → ℕ → ℕ → OtaDeviceReportStatus → Option ℕ → List ℕ → Db (List ℕ)
unfolding apply_report report_message
apply_ota_device_report project_id device_id campaign_id st err_code err_msg = do
  _ ←
      when_not_found (get_device_assignment campaign_id device_id)
        (bad_request "unknown campaign assignment")
  version ← apply_report st project_id device_id campaign_id err_code (report_message err_msg)
  ignore (try_auto_complete project_id campaign_id)
  pure version

-- The part of `OnDeviceReportFirmware` behind the comparison of the versions.
unfoldable pub install_if : Bool → ℕ → ℕ → Joined → Db (Unit {0})
install_if false project_id device_id j = pure tt
install_if true project_id device_id j = do
  ignore (set_assignment_status j.campaign.id device_id installed)
  ignore (try_auto_complete project_id j.campaign.id)

unfoldable pub compare_and_install : ℕ → ℕ → List ℕ → Option Joined → Db (Unit {0})
unfolding install_if
compare_and_install project_id device_id reported none = pure tt
compare_and_install project_id device_id reported (some j) = do
  same ← equal_fold_of (trim_space reported) (trim_space j.firmware.version)
  install_if same project_id device_id j

unfoldable pub on_device_report_firmware : ℕ → ℕ → List ℕ → Db (Unit {0})
unfolding compare_and_install
on_device_report_firmware project_id device_id reported = do
  row ← find_in_progress project_id device_id
  compare_and_install project_id device_id reported row
