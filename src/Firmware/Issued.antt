-- ===== src/Firmware/Issued.antt =====
-- A token that was issued opens its firmware: internal/domain/firmware/service/ota_download.go.
use firmflow.Base.{
  ℕ, zero, suc, ◌+◌, ◌/◌, ◌%◌, ◌++◌, ◌==◌, String, Bool, true, false, not, ◌&&◌, ◌≡◌, ◌≤◌, ◌<◌,
  refl, sym, ap, subst, ◌∙◌, List, [], ◌∷◌, Option, some, find?, any, count, length, str_eq,
  str_eq_iff, Bool-cases, inl, inr, arith, length-append,
}
use firmflow.Base.Int.{ℤ}
use firmflow.Store.{World, ok}
use firmflow.Store.Triple.{bind-Triple, now-Triple, pure-Triple, weaken-Triple}
use firmflow.Store.Partial.{
  Returns, run-Returns, catch-Returns, first-Returns, query-Returns, new_uuid-Returns,
  exec_unique-Returns,
}
use firmflow.Model.{Device, Firmware, Tables}
use firmflow.Auth.External.{External, draw}
use firmflow.Device.Download.{
  download_token, unconsumed_row, with_token_hash, insert_ota_download_token,
}
use firmflow.Firmware.Passes.{Healthy, open_passes}
use firmflow.Device.Scope.{get_firmware, of_firmware}
use firmflow.Firmware.Download.{
  hex_digit, hex_text, is_hex_digit, all_hex, time_to_live, issue_ota_download_token,
  open_firmware_with_ota_download_token,
}
use firmflow.Db.{live}

length-hex_text : (k n : ℕ) → length (hex_text k n) ≡ k
unfolding hex_text
length-hex_text zero n = refl
length-hex_text (suc k) n = omega (
  arith,
  length-append (hex_text k (n / 16)) (hex_digit (n % 16) ∷ []),
  length-hex_text k (n / 16),
)

all_hex-append :
    (xs : List ℕ) (c : ℕ)
    → all_hex xs ≡ true
    → is_hex_digit c ≡ true
    → all_hex (xs ++ (c ∷ [])) ≡ true
unfolding all_hex
all_hex-append [] c h k = ground arith
all_hex-append (x ∷ xs) c h k = let rest = all_hex-append xs c in ground arith

hex_digit-hex : (n : ℕ) → n < 16 → is_hex_digit (hex_digit n) ≡ true
hex_digit-hex n h = ground arith

all_hex-hex_text : (k n : ℕ) → all_hex (hex_text k n) ≡ true
unfolding hex_text all_hex
all_hex-hex_text zero n = refl
all_hex-hex_text (suc k) n =
    all_hex-append (hex_text k (n / 16)) (hex_digit (n % 16)) (all_hex-hex_text k (n / 16))
      (hex_digit-hex (n % 16) (omega arith))

-- A row behind rows that do not fit is the one found.
find_behind :
    {A : Type 0} (p : A → Bool) (xs : List A) (r : A)
    → any p xs ≡ false
    → p r ≡ true
    → find? p (xs ++ (r ∷ [])) ≡ some r
find_behind p [] r h k = rw k refl
find_behind p (x ∷ xs) r h k = elim (Bool-cases (p x)) [
  | inl e ↦ absurd (ground arith)
  | inr e ↦ rw e (find_behind p xs r (ground arith) k)
]

count_behind :
    {A : Type 0} (p : A → Bool) (xs : List A) (r : A) → p r ≡ true → 1 ≤ count p (xs ++ (r ∷ []))
count_behind p [] r k = rw k (omega arith)
count_behind p (x ∷ xs) r k = elim (Bool-cases (p x)) [
  | inl e ↦ rw e (omega arith)
  | inr e ↦ rw e (count_behind p xs r k)
]

-- What issuing a token leaves behind.
record Issued (x : External) (project_id device_id campaign_id firmware_id : ℕ) (t0 : Tables)
    (answer : List ℕ × ℕ) (t : Tables) : Type 0 where
  drawn : ℕ
  id : ℕ
  at : ℕ
  text : answer.0 ≡ hex_text 64 drawn
  fresh : any (with_token_hash (x.hash_token answer.0)) t0.ota_download_tokens ≡ false
  written :
      t.ota_download_tokens
      ≡ t0.ota_download_tokens
        ++ (download_token id at
              (x.hash_token answer.0)
              project_id
              device_id
              campaign_id
              firmware_id
              answer.1
            ∷ [])

module _ (t0 : Tables) where
  abbrev Here : Tables → Type 0
  Here t = t ≡ t0

  draw-Here : Returns Here draw (λ n. Here)
  unfolding draw
  draw-Here = bind-Triple {Q = λ u. Here} _ _ (query-Returns _ (λ t h. h)) (λ u. new_uuid-Returns)

  issue-Issued :
      (x : External) (project_id device_id campaign_id firmware_id : ℕ) (ttl : ℤ)
      → Returns Here
          (issue_ota_download_token x project_id device_id campaign_id firmware_id ttl)
          (Issued x project_id device_id campaign_id firmware_id t0)
  unfolding issue_ota_download_token insert_ota_download_token get_firmware
  issue-Issued x q d c f ttl =
      bind-Triple {Q = λ u. Here} _ _
        (catch-Returns _ _ (weaken-Triple (λ a t p. p.0) (first-Returns _)))
        (λ fw. bind-Triple _ _ draw-Here (λ n. bind-Triple _ _ now-Triple (λ at.
          let raw = hex_text 64 n in
          let answer : List ℕ × ℕ = (raw, at + time_to_live ttl) in
          bind-Triple {Q = λ u. Issued x q d c f t0 answer} _ _
            (bind-Triple _ _ new_uuid-Returns (λ id. bind-Triple _ _ now-Triple (λ created.
              exec_unique-Returns _ _ (λ t e k. record {
                drawn = n;
                id = id;
                at = created;
                text = refl;
                fresh =
                    ap (λ u. any (with_token_hash (x.hash_token raw)) u.ota_download_tokens) (sym e)
                    ∙ k;
                written =
                    ap
                      (λ u.
                        u.ota_download_tokens
                        ++ (download_token id created (x.hash_token raw) q d c f
                              (at + time_to_live ttl)
                            ∷ []))
                      e;
              }))))
            (λ u. pure-Triple answer (λ t p. p)))))

-- The device is in the project, not deleted and not blocked.
abbrev pub of_free_device : ℕ → ℕ → Device → Bool
of_free_device project_id device_id d =
    (d.id == device_id) && ((d.project_id == project_id) && (live d.deleted_at && not d.blocked))

same_text : (s : String) → str_eq s s ≡ true
same_text s = (str_eq_iff s s).1 refl

-- A token that was issued opens its firmware: with the tables that the issue leaves, and a database
-- that answers, a download with the raw token before its expiry gives the bytes of the storage and
-- the firmware, when the device is still in the project, not deleted and not blocked, and the
-- firmware still in the project, not deleted and in the storage.
pub open-issue :
    (x : External) (storage : String → Option (List ℕ))
    (project_id device_id campaign_id firmware_id : ℕ) (ttl : ℤ) (w v : World Tables) (raw : List ℕ)
    (expires_at : ℕ) (fw : Firmware) (bytes : List ℕ)
    → (issue_ota_download_token x project_id device_id campaign_id firmware_id ttl w).0
      ≡ ok (raw, expires_at)
    → v.db ≡ (issue_ota_download_token x project_id device_id campaign_id firmware_id ttl w).1.db
    → Healthy v
    → v.env.clock v.tick < expires_at
    → 1 ≤ count (of_free_device project_id device_id) v.db.devices
    → find? (of_firmware project_id firmware_id) v.db.firmwares ≡ some fw
    → storage fw.storage_key ≡ some bytes
    → (open_firmware_with_ota_download_token x storage raw v).0 ≡ ok (bytes, fw)
open-issue x storage q d c f ttl w v raw expires_at fw bytes e same h early device there shelf =
    let i = run-Returns (issue-Issued w.db x q d c f ttl) w refl (raw, expires_at) e in
    let hash = x.hash_token raw in
    let row = download_token i.id i.at hash q d c f expires_at in
    let old = w.db.ota_download_tokens in
    let rows : v.db.ota_download_tokens ≡ old ++ (row ∷ []) =
      ap (λ t. t.ota_download_tokens) same ∙ i.written in
    let is_row : with_token_hash hash row ≡ true = same_text hash in
    open_passes x storage raw v row fw bytes h (ap length i.text ∙ length-hex_text 64 i.drawn)
      (ap all_hex i.text ∙ all_hex-hex_text 64 i.drawn)
      (ap (find? (with_token_hash hash)) rows
        ∙ find_behind (with_token_hash hash) old row i.fresh is_row)
      refl
      (subst (λ xs. 1 ≤ count (unconsumed_row i.id) xs) (sym rows)
        (count_behind (unconsumed_row i.id) old row (ground arith)))
      early device there shelf
