-- ===== src/Firmware/Allowed.antt =====
-- What a download stands on: internal/domain/firmware/service/ota_download.go.
use firmflow.Base.{
  ℕ, String, true, not, ◌≡◌, refl, sym, ap, ◌∙◌, List, Option, none, some, is_some, find?, count,
  length, ◌==◌, ltb, ◌≤◌, ◌<◌, ltb→lt, arith, subst,
}
use firmflow.Store.{
  next, ◌>>=◌, fail, catch, now, World, ok, Keeps, keep_rules, IsPreorder, exec-Keeps,
}
use firmflow.Store.Triple.{bind-Triple, pure-Triple, weaken-Triple, with_fact, first-Triple}
use firmflow.Store.Run.{after_guard}
use firmflow.Store.Partial.{
  before-Returns, first-Returns, fail-Returns, Returns, run-Returns, Keeps-Returns, guard-Returns,
  query-Returns, catch-Returns, transaction-Returns,
}
use firmflow.Model.{OtaDownloadToken, Firmware, Tables}
use firmflow.Auth.External.{External}
use firmflow.Firmware.Download.{
  hide_refusal, open_firmware_with_ota_download_token, invalid_ota_token, firmware_unavailable,
  all_hex, opened, or_unavailable,
}
use firmflow.Device.Download.{
  device_blocked, token_expired, consumed_row, token_consumed, with_token_hash, check_downloadable,
  consume_ota_download_token, mark_consumed, may_download,
}
use firmflow.Device.Scope.{of_firmware, get_firmware}

-- The tables and the storage allow this download, at the time that its first outside event reads
-- from the clock.
pub record Allowed (x : External) (storage : String → Option (List ℕ)) (raw : List ℕ)
    (w : World Tables) (answer : List ℕ × Firmware) : Type 0 where
  row : OtaDownloadToken
  sixty_four : (length raw == 64) ≡ true
  hex : all_hex raw ≡ true
  found : find? (with_token_hash (x.hash_token raw)) w.db.ota_download_tokens ≡ some row
  unconsumed : not (is_some row.consumed_at) ≡ true
  unexpired : w.env.clock w.tick < row.expires_at
  device : 1 ≤ count (may_download row) w.db.devices
  firmware : find? (of_firmware row.project_id row.firmware_id) w.db.firmwares ≡ some answer.1
  bytes : storage answer.1.storage_key ≡ some answer.0

abbrev SameFirmwares : Tables → Tables → Type 0
SameFirmwares t u = u.firmwares ≡ t.firmwares

same_firmwares : IsPreorder SameFirmwares
same_firmwares = record { refl' = λ t. refl; trans' = λ t u v h k. k ∙ h }

mark-SameFirmwares : (r : OtaDownloadToken) (at : ℕ) → Keeps SameFirmwares (mark_consumed r at)
unfolding mark_consumed
mark-SameFirmwares r at = search (keep_rules, same_firmwares, exec-Keeps) depth 12

positive : (n : ℕ) → ltb 0 n ≡ true → 1 ≤ n
positive n h = ground arith

or_unavailable-Returns :
    {P : Tables → Type 0} (o : Option (List ℕ))
    → Returns P (or_unavailable o) (λ b t. P t × (o ≡ some b))
or_unavailable-Returns none = fail-Returns firmware_unavailable
or_unavailable-Returns (some b) = pure-Triple b (λ t p. (p, refl))

module _ (t0 : Tables) where
  abbrev Here : Tables → Type 0
  Here t = t ≡ t0

  record Checked (r : OtaDownloadToken) (at : ℕ) : Type 0 where
    unconsumed : not (is_some r.consumed_at) ≡ true
    unexpired : at < r.expires_at
    device : 1 ≤ count (may_download r) t0.devices

  check-Checked :
      (r : OtaDownloadToken) (at : ℕ)
      → Returns Here (check_downloadable r at) (λ u t. Here t × Checked r at)
  unfolding check_downloadable
  check-Checked r at =
      bind-Triple _ _ (guard-Returns (not (is_some r.consumed_at)) token_consumed) (λ u.
        with_fact (λ fresh.
          bind-Triple _ _ (guard-Returns (ltb at r.expires_at) token_expired) (λ v.
            with_fact (λ early.
              bind-Triple {Q = λ n t. Here t × (n ≡ count (may_download r) t0.devices)} _ _
                (query-Returns (λ t. count (may_download r) t.devices)
                  (λ t e. (e, ap (λ u. count (may_download r) u.devices) e)))
                (λ n. with_fact (λ counted.
                  weaken-Triple
                    (λ y t p. (
                      p.0,
                      record {
                        unconsumed = fresh;
                        unexpired = ltb→lt at r.expires_at early;
                        device = subst (λ m. 1 ≤ m) counted (positive n p.1);
                      },
                    ))
                    (guard-Returns (ltb 0 n) device_blocked)))))))

  abbrev Stored : Tables → Type 0
  Stored t = t.firmwares ≡ t0.firmwares

  consume-Checked :
      (h : String) (at : ℕ)
      → Returns Here (consume_ota_download_token h at) (λ r t.
        Stored t
        × ((row : OtaDownloadToken) × (r ≡ consumed_row at row)
            × (find? (with_token_hash h) t0.ota_download_tokens ≡ some row)
            × Checked row at))
  unfolding consume_ota_download_token
  consume-Checked h at = transaction-Returns _ (
      bind-Triple _ _
        (catch-Returns _ _
          (first-Triple t0 (λ t. find? (with_token_hash h) t.ota_download_tokens) tt))
        (λ row. with_fact (λ found. bind-Triple _ _ (check-Checked row at) (λ u.
          with_fact (λ checked.
            bind-Triple {Q = λ v. Stored} _ _
              (before-Returns {R = Stored} (λ t e. ap (λ u. u.firmwares) e)
                (Keeps-Returns Stored (λ s t same p. same ∙ p) _ (mark-SameFirmwares row at)))
              (λ v.
                pure-Triple (consumed_row at row) (λ t p. (p, (row, refl, found, checked)))))))))

  opened-Stored :
      (storage : String → Option (List ℕ)) (r : OtaDownloadToken)
      → Returns Stored (opened storage r) (λ a t.
        (find? (of_firmware r.project_id r.firmware_id) t0.firmwares ≡ some a.1)
        × (storage a.1.storage_key ≡ some a.0))
  unfolding opened get_firmware
  opened-Stored storage r =
      bind-Triple _ _
        (catch-Returns _ _
          (first-Returns (λ t. find? (of_firmware r.project_id r.firmware_id) t.firmwares)))
        (λ fw. bind-Triple _ _ (guard-Returns (not (is_some fw.deleted_at)) invalid_ota_token) (λ u.
          bind-Triple _ _ (or_unavailable-Returns (storage fw.storage_key)) (λ b.
            pure-Triple (b, fw)
              (λ t p. (
                ap (find? (of_firmware r.project_id r.firmware_id)) (sym p.0.0.0) ∙ p.0.0.1,
                p.1,
              )))))

module _ (x : External) (storage : String → Option (List ℕ)) (raw : List ℕ) where
  -- What follows the reading of the clock.
  opened-Allowed :
      (w : World Tables) (answer : List ℕ × Firmware)
      → (length raw == 64) ≡ true
      → all_hex raw ≡ true
      → ((catch
              (consume_ota_download_token (x.hash_token raw) (w.env.clock w.tick))
              (λ e. fail (hide_refusal e))
            >>= opened storage)
          (next w)).0
        ≡ ok answer
      → Allowed x storage raw w answer
  opened-Allowed w answer long hex e =
      let at = w.env.clock w.tick in
      run-Returns {P = Here w.db} {Q = λ a t. Allowed x storage raw w a}
        (bind-Triple _ _ (catch-Returns _ hide_refusal (consume-Checked w.db (x.hash_token raw) at))
          (λ r. with_fact (λ c.
            weaken-Triple
              (λ a t p. record {
                row = c.0;
                sixty_four = long;
                hex = hex;
                found = c.2;
                unconsumed = c.3.unconsumed;
                unexpired = c.3.unexpired;
                device = c.3.device;
                firmware =
                    ap (λ s. find? (of_firmware s.project_id s.firmware_id) w.db.firmwares)
                      (sym c.1)
                    ∙ p.0;
                bytes = p.1;
              })
              (opened-Stored w.db storage r))))
        (next w) refl answer e

  -- A download that is opened was allowed by the tables and the storage before the call: the raw
  -- token is 64 hexadecimal digits, the row of its hash is unconsumed and expires after the time that
  -- the call reads from the clock, the device of the row is in its project, not deleted and not
  -- blocked, and the answer is the firmware of the row, in its project and not deleted, with the
  -- bytes of its storage key.
  pub open-Allowed :
      (w : World Tables) (answer : List ℕ × Firmware)
      → (open_firmware_with_ota_download_token x storage raw w).0 ≡ ok answer
      → Allowed x storage raw w answer
  unfolding open_firmware_with_ota_download_token now
  open-Allowed w answer e =
      let (long, e1) = after_guard _ _ _ w e in
      let (hex, e2) = after_guard _ _ _ w e1 in opened-Allowed w answer long hex e2
