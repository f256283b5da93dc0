-- ===== src/Firmware/Download.antt =====
-- Issuing and using a token for one download: internal/domain/firmware/service/ota_download.go.
use firmflow.Base.{
  zero, suc, ◌/◌, ◌%◌, ◌++◌, ltb, [], ◌∷◌, ℕ, ◌+◌, ◌*◌, String, Bool, true, not, ◌&&◌, ◌||◌,
  if◌then◌else◌, Option, none, some, List, length, leb, ◌==◌, str_eq, is_some,
}
use firmflow.Base.Int.{ℤ, pos, ltb_ℤ, to_ℕ}
use firmflow.Store.{
  ◌>>=◌, ◌>>◌, pure, fail, guard, catch, now, app, not_found, plain, Error, when_not_found,
}
use firmflow.Model.{Firmware, OtaDownloadToken}
use firmflow.Db.{Db}
use firmflow.Auth.External.{External, draw}
use firmflow.Device.Scope.{get_firmware}
use firmflow.Device.Download.{consume_ota_download_token, insert_ota_download_token}

abbrev pub minute : ℕ
minute = 60 * 1000000000

-- A time to live that is not positive is fifteen minutes.
unfoldable pub time_to_live : ℤ → ℕ
time_to_live ttl = if ltb_ℤ (pos 0) ttl then to_ℕ ttl else 15 * minute

abbrev pub hex_digit : ℕ → ℕ
hex_digit n = if ltb n 10 then 48 + n else 87 + n

-- `hex.EncodeToString`: the last `k` hexadecimal digits of a number.
unfoldable pub hex_text : ℕ → ℕ → List ℕ
hex_text zero n = []
hex_text (suc k) n = hex_text k (n / 16) ++ (hex_digit (n % 16) ∷ [])

-- The raw token, which is the text of 32 random bytes, and when it expires.
unfoldable pub issue_ota_download_token : External → ℕ → ℕ → ℕ → ℕ → ℤ → Db (List ℕ × ℕ)
unfolding time_to_live hex_text
issue_ota_download_token x project_id device_id campaign_id firmware_id ttl = do
  _ ← when_not_found (get_firmware project_id firmware_id) (not_found "firmware not found")
  n ← draw
  let raw = hex_text 64 n
  at ← now
  insert_ota_download_token (x.hash_token raw) project_id device_id campaign_id firmware_id
      (at + time_to_live ttl)
  pure (raw, at + time_to_live ttl)

abbrev pub is_hex_digit : ℕ → Bool
is_hex_digit c = (leb 48 c && leb c 57) || ((leb 97 c && leb c 102) || (leb 65 c && leb c 70))

abbrev pub invalid_ota_token : Error
invalid_ota_token = app (record {
  code = "invalid_ota_token";
  message = "invalid or expired download token";
  http_status = 401;
})

abbrev pub firmware_unavailable : Error
firmware_unavailable = app (record {
  code = "firmware_storage_unavailable";
  message = "firmware binary could not be read";
  http_status = 500;
})

-- Every refusal of a token looks the same from outside.
unfoldable pub hide_refusal : Error → Error
hide_refusal (plain message) =
    if str_eq message "ota_download_token_not_found"
      || (str_eq message "ota_download_token_expired"
          || (str_eq message "ota_download_token_consumed"
              || str_eq message "ota_download_device_blocked"))
    then invalid_ota_token
    else plain message
hide_refusal e = e

unfoldable pub all_hex : List ℕ → Bool
all_hex [] = true
all_hex (c ∷ cs) = let rest = all_hex cs in is_hex_digit c && rest

-- `objects.Open`: the storage gives the bytes of a key, or fails.
abbrev pub or_unavailable : Option (List ℕ) → Db (List ℕ)
or_unavailable none = fail firmware_unavailable
or_unavailable (some bytes) = pure bytes

-- The firmware of a token that was consumed, and its bytes.
unfoldable pub opened : (String → Option (List ℕ)) → OtaDownloadToken → Db (List ℕ × Firmware)
opened storage row = do
  fw ← when_not_found (get_firmware row.project_id row.firmware_id) invalid_ota_token
  guard (not (is_some fw.deleted_at)) invalid_ota_token
  bytes ← or_unavailable (storage fw.storage_key)
  pure (bytes, fw)

unfoldable pub open_firmware_with_ota_download_token :
    External → (String → Option (List ℕ)) → List ℕ → Db (List ℕ × Firmware)
unfolding all_hex hide_refusal opened
open_firmware_with_ota_download_token x storage raw_token = do
  guard (length raw_token == 64) invalid_ota_token
  guard (all_hex raw_token) invalid_ota_token
  at ← now
  row ← catch (consume_ota_download_token (x.hash_token raw_token) at) (λ e. fail (hide_refusal e))
  opened storage row
