-- ===== src/Firmware/Passes.antt =====
-- A download whose checks all pass, statement by statement:
-- internal/domain/firmware/service/ota_download.go.
use firmflow.Base.{
  Option-cases, find?-sound, is_some, ℕ, suc, ◌==◌, String, true, false, not, ◌≡◌, ◌≤◌, ◌<◌, refl,
  List, Option, none, some, find?, count, ltb, length, inl, inr, arith,
}
use firmflow.Store.{World, ok, next, query, now, exec, transaction}
use firmflow.Model.{OtaDownloadToken, Firmware, Tables, update_where}
use firmflow.Auth.External.{External}
use firmflow.Device.Download.{
  may_download, unconsumed_row, consumed_row, with_token_hash, check_downloadable, mark_consumed,
  consume_ota_download_token,
}
use firmflow.Device.Scope.{get_firmware, of_firmware}
use firmflow.Firmware.Download.{all_hex, opened, open_firmware_with_ota_download_token}

-- The database answers each statement.
abbrev pub Healthy : World Tables → Type 0
Healthy w = (n : ℕ) → w.env.fails n ≡ false

abbrev marked : ℕ → OtaDownloadToken → World Tables → World Tables
marked at row w = record (next w) {
  db = record w.db {
    ota_download_tokens =
        update_where (unconsumed_row row.id) (consumed_row at) w.db.ota_download_tokens;
  };
}

positive : (n : ℕ) → 1 ≤ n → ltb 0 n ≡ true
positive n h = ground arith

module _ (w : World Tables) (h : Healthy w) (row : OtaDownloadToken) (at : ℕ)
    (fresh : row.consumed_at ≡ none) where
  check_passes :
      at < row.expires_at
      → 1 ≤ count (may_download row) w.db.devices
      → check_downloadable row at w ≡ (ok tt, next w)
  unfolding check_downloadable query
  check_passes early device =
      let soon : ltb at row.expires_at ≡ true = ground arith in
      let some_device = positive (count (may_download row) w.db.devices) device in
      rw (fresh, soon, h w.tick, some_device) refl

  mark_passes :
      1 ≤ count (unconsumed_row row.id) w.db.ota_download_tokens
      → mark_consumed row at w ≡ (ok tt, marked at row w)
  unfolding mark_consumed exec
  mark_passes one =
      rw (h w.tick, positive (count (unconsumed_row row.id) w.db.ota_download_tokens) one) refl

module _ (w : World Tables) (h : Healthy w) (hash : String) (row : OtaDownloadToken) (at : ℕ)
    (found : find? (with_token_hash hash) w.db.ota_download_tokens ≡ some row)
    (fresh : row.consumed_at ≡ none) where
  consume_passes :
      at < row.expires_at
      → 1 ≤ count (may_download row) w.db.devices
      → 1 ≤ count (unconsumed_row row.id) w.db.ota_download_tokens
      → consume_ota_download_token hash at w
        ≡ (ok (consumed_row at row), next (marked at row (next (next w))))
  unfolding consume_ota_download_token transaction query
  consume_passes early device one =
      rw (h w.tick, found)
        (rw (check_passes (next w) h row at fresh early device) (
          rw (mark_passes (next (next w)) h row at fresh one)
            (rw (h (suc (suc (suc w.tick)))) refl)))

not_deleted :
    (q f : ℕ) (fw : Firmware) → of_firmware q f fw ≡ true → not (is_some fw.deleted_at) ≡ true
not_deleted q f fw h = elim (Option-cases fw.deleted_at) [
  | inl e ↦ rw e refl
  | inr (d, e) ↦ absurd (ground (arith, rw e at h))
]

opened_passes :
    (w : World Tables) (storage : String → Option (List ℕ)) (fw : Firmware) (bytes : List ℕ)
    (r : OtaDownloadToken)
    → Healthy w
    → find? (of_firmware r.project_id r.firmware_id) w.db.firmwares ≡ some fw
    → storage fw.storage_key ≡ some bytes
    → (opened storage r w).0 ≡ ok (bytes, fw)
unfolding opened get_firmware query
opened_passes w storage fw bytes r h there shelf =
    let sound = find?-sound (of_firmware r.project_id r.firmware_id) w.db.firmwares fw there in
    let alive = not_deleted r.project_id r.firmware_id fw sound in
    rw (h w.tick, there) (rw alive (rw shelf refl))

-- The download of a token that the tables know.
pub open_passes :
    (x : External) (storage : String → Option (List ℕ)) (raw : List ℕ) (w : World Tables)
    (row : OtaDownloadToken) (fw : Firmware) (bytes : List ℕ)
    → Healthy w
    → length raw ≡ 64
    → all_hex raw ≡ true
    → find? (with_token_hash (x.hash_token raw)) w.db.ota_download_tokens ≡ some row
    → row.consumed_at ≡ none
    → 1 ≤ count (unconsumed_row row.id) w.db.ota_download_tokens
    → w.env.clock w.tick < row.expires_at
    → 1 ≤ count (may_download row) w.db.devices
    → find? (of_firmware row.project_id row.firmware_id) w.db.firmwares ≡ some fw
    → storage fw.storage_key ≡ some bytes
    → (open_firmware_with_ota_download_token x storage raw w).0 ≡ ok (bytes, fw)
unfolding open_firmware_with_ota_download_token now
open_passes x storage raw w row fw bytes h long hex found fresh one early device there shelf =
    let at = w.env.clock w.tick in
    let sixty_four : (length raw == 64) ≡ true = ground arith in
    rw (sixty_four, hex)
      (rw (consume_passes (next w) h (x.hash_token raw) row at found fresh early device one) (
        opened_passes (next (marked at row (next (next (next w))))) storage fw bytes
          (consumed_row at row) h there shelf))
