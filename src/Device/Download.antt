-- ===== src/Device/Download.antt =====
-- The tokens for one download of a firmware: internal/domain/device/repository/ota_download_token.go.
use firmflow.Base.{
  ℕ, String, Bool, not, ◌&&◌, none, some, is_none, is_some, ltb, any, count, find?, str_eq, ◌==◌,
}
use firmflow.Store.{
  ◌>>=◌, ◌>>◌, pure, guard, now, new_uuid, exec, exec_unique, query, first, transaction, plain,
  Error, when_not_found,
}
use firmflow.Model.{OtaDownloadToken, Device, update_where, insert_row}
use firmflow.Db.{Db, live}

abbrev pub token_not_found : Error
token_not_found = plain "ota_download_token_not_found"

abbrev pub token_expired : Error
token_expired = plain "ota_download_token_expired"

abbrev pub token_consumed : Error
token_consumed = plain "ota_download_token_consumed"

abbrev pub device_blocked : Error
device_blocked = plain "ota_download_device_blocked"

abbrev pub with_token_hash : String → OtaDownloadToken → Bool
with_token_hash hash r = str_eq r.token_hash hash

-- What a token is for: project, device, campaign, firmware and its expiry.
abbrev pub download_token : ℕ → ℕ → String → ℕ → ℕ → ℕ → ℕ → ℕ → OtaDownloadToken
download_token id at hash project_id device_id campaign_id firmware_id expires_at = record {
  id = id;
  token_hash = hash;
  project_id = project_id;
  device_id = device_id;
  campaign_id = campaign_id;
  firmware_id = firmware_id;
  expires_at = expires_at;
  consumed_at = none;
  created_at = at;
}

unfoldable pub insert_ota_download_token : String → ℕ → ℕ → ℕ → ℕ → ℕ → Db (Unit {0})
insert_ota_download_token hash project_id device_id campaign_id firmware_id expires_at = do
  id ← new_uuid
  at ← now
  exec_unique (λ t. any (with_token_hash hash) t.ota_download_tokens)
      λ t. (
        record t {
          ota_download_tokens =
              insert_row
                (download_token id at hash project_id device_id campaign_id firmware_id expires_at)
                t.ota_download_tokens;
        },
        tt,
      )

-- `id = ? AND project_id = ? AND deleted_at IS NULL AND blocked = false`.
abbrev pub may_download : OtaDownloadToken → Device → Bool
may_download r d =
    (d.id == r.device_id)
    && ((d.project_id == r.project_id) && (live d.deleted_at && not d.blocked))

abbrev pub unconsumed_row : ℕ → OtaDownloadToken → Bool
unconsumed_row id r = (r.id == id) && is_none r.consumed_at

abbrev pub consumed_row : ℕ → OtaDownloadToken → OtaDownloadToken
consumed_row at r = record r { consumed_at = some at }

-- The row is unconsumed, unexpired, and its device may download.
unfoldable pub check_downloadable : OtaDownloadToken → ℕ → Db (Unit {0})
check_downloadable row at = do
  guard (not (is_some row.consumed_at)) token_consumed
  guard (ltb at row.expires_at) token_expired
  n ← query (λ t. count (may_download row) t.devices)
  guard (ltb 0 n) device_blocked

-- The update must meet a row that is still unconsumed.
unfoldable pub mark_consumed : OtaDownloadToken → ℕ → Db (Unit {0})
mark_consumed row at = do
  rows ← exec λ t. (
    record t {
      ota_download_tokens =
          update_where (unconsumed_row row.id) (consumed_row at) t.ota_download_tokens;
    },
    count (unconsumed_row row.id) t.ota_download_tokens,
  )
  guard (ltb 0 rows) token_consumed

unfoldable pub consume_ota_download_token : String → ℕ → Db OtaDownloadToken
unfolding check_downloadable mark_consumed
consume_ota_download_token token_hash at = transaction do
  row ←
      when_not_found (first (λ t. find? (with_token_hash token_hash) t.ota_download_tokens))
        token_not_found
  check_downloadable row at
  mark_consumed row at
  pure (consumed_row at row)
