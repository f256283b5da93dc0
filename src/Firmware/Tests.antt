-- ===== src/Firmware/Tests.antt =====
-- The theorems on downloads at concrete inputs.
use firmflow.Base.{
  count, ◌<◌, ◌≤◌, ◌++◌, Option, ℕ, ◌≡◌, refl, String, none, some, List, [], ◌∷◌, replicate, arith,
}
use firmflow.Base.Int.{pos}
use firmflow.Store.{new_uuid, exec_unique, World, ok, query, exec, now, transaction}
use firmflow.Model.{OtaDownloadToken, Tables, active, pending, update_where}
use firmflow.Sample.{world, crypto, firmware_3}
use firmflow.Firmware.Once.{serve_all, issue, open_once}
use firmflow.Firmware.Allowed.{open-Allowed, Allowed}
use firmflow.Firmware.Download.{
  hex_text, time_to_live, issue_ota_download_token, opened, all_hex,
  open_firmware_with_ota_download_token,
}
use firmflow.Device.Download.{
  insert_ota_download_token, mark_consumed, check_downloadable, consume_ota_download_token,
}
use firmflow.Device.Scope.{get_firmware}
use firmflow.Auth.External.{draw}
use firmflow.Firmware.Issued.{of_free_device, open-issue}

abbrev digits : List ℕ
digits = replicate 64 49

abbrev row_71 : OtaDownloadToken
row_71 = record {
  id = 71;
  token_hash = "another";
  project_id = 1;
  device_id = 9;
  campaign_id = 5;
  firmware_id = 3;
  expires_at = 9000;
  consumed_at = none;
  created_at = 0;
}

abbrev offered : World Tables
offered = record (world active pending) {
  db = record (world active pending).db { ota_download_tokens = row_71 ∷ [] };
}

abbrev shelf : String → Option (List ℕ)
shelf key = some (1 ∷ 2 ∷ [])

downloaded :
    (open_firmware_with_ota_download_token crypto shelf digits offered).0
    ≡ ok (1 ∷ 2 ∷ [], firmware_3)
unfolding open_firmware_with_ota_download_token all_hex consume_ota_download_token
    check_downloadable mark_consumed opened get_firmware query exec now transaction update_where
downloaded = refl

open-Allowed_example : Allowed crypto shelf digits offered (1 ∷ 2 ∷ [], firmware_3)
open-Allowed_example = open-Allowed crypto shelf digits offered (1 ∷ 2 ∷ [], firmware_3) downloaded

open_once_example : ¬ (
    (open_firmware_with_ota_download_token crypto shelf digits (
      serve_all crypto shelf
        (issue 1 9 5 3 (pos 60) ∷ [])
        (open_firmware_with_ota_download_token crypto shelf digits offered).1)).0
    ≡ ok (1 ∷ 2 ∷ [], firmware_3))
open_once_example =
    open_once crypto shelf digits (issue 1 9 5 3 (pos 60) ∷ []) offered (1 ∷ 2 ∷ [], firmware_3)
      (1 ∷ 2 ∷ [], firmware_3) (omega arith) downloaded

-- The token of the call of `issue`, and a later download with it.
abbrev issued_text : List ℕ
issued_text = replicate 61 48 ++ (0x33 ∷ 0x65 ∷ 0x61 ∷ [])

abbrev handed_out : World Tables
handed_out = (issue_ota_download_token crypto 1 9 5 3 (pos 60) (world active pending)).1

issued :
    (issue_ota_download_token crypto 1 9 5 3 (pos 60) (world active pending)).0
    ≡ ok (issued_text, 563)
unfolding issue_ota_download_token time_to_live hex_text draw insert_ota_download_token get_firmware
    query exec_unique now new_uuid
issued = refl

free_device : 1 ≤ count (of_free_device 1 9) handed_out.db.devices
unfolding issue_ota_download_token time_to_live hex_text draw insert_ota_download_token get_firmware
    query exec_unique now new_uuid
free_device = omega arith

still_time : handed_out.env.clock handed_out.tick < 563
unfolding issue_ota_download_token time_to_live hex_text draw insert_ota_download_token get_firmware
    query exec_unique now new_uuid
still_time = omega arith

open-issue_example :
    (open_firmware_with_ota_download_token crypto shelf issued_text handed_out).0
    ≡ ok (1 ∷ 2 ∷ [], firmware_3)
unfolding issue_ota_download_token time_to_live hex_text draw insert_ota_download_token get_firmware
    query exec_unique now new_uuid
open-issue_example =
    open-issue crypto shelf 1 9 5 3 (pos 60) (world active pending) handed_out issued_text 563
      firmware_3 (1 ∷ 2 ∷ []) issued refl (λ n. refl) still_time free_device refl refl
