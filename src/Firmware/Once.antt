-- ===== src/Firmware/Once.antt =====
-- A download token opens one download: internal/domain/firmware/service/ota_download.go.
use firmflow.Base.{
  length, ℕ, String, Bool, true, false, not, ◌&&◌, ◌≡◌, refl, sym, ◌∙◌, List, [], ◌∷◌, Option, none,
  some, is_none, is_some, find?, any, str_eq, ◌==◌, ltb, arith, subst, Bool-cases, inl, inr,
}
use firmflow.Base.Int.{ℤ}
use firmflow.Store.{
  World, ok, Keeps, keep_rules, IsPreorder, run-Keeps, exec-Keeps, exec_unique-Keeps_fresh,
  pure-Keeps, fail-Keeps,
}
use firmflow.Store.Triple.{bind-Triple, now-Triple, pure-Triple, weaken-Triple, with_fact, triple}
use firmflow.Store.Partial.{
  Keeps-Returns, exec-Returns, guard-Returns, first-Returns, catch-Returns, transaction-Returns,
  Returns, run-Returns,
}
use firmflow.Model.{OtaDownloadToken, Firmware, Tables, update_where}
use firmflow.Auth.External.{External, draw}
use firmflow.Auth.Spent.{Spent, Unique, Spent-update, Spent-insert}
use firmflow.Auth.Spent.Found.{found-Only, shut-Spent}
use firmflow.Device.Download.{
  check_downloadable, mark_consumed, token_consumed, consumed_row, download_token,
  consume_ota_download_token, insert_ota_download_token, unconsumed_row, with_token_hash,
}
use firmflow.Firmware.Download.{
  hide_refusal, all_hex, opened, invalid_ota_token, firmware_unavailable, issue_ota_download_token,
  open_firmware_with_ota_download_token, or_unavailable,
}
use firmflow.Device.Scope.{get_firmware}

abbrev pub download_hash : OtaDownloadToken → String
download_hash r = r.token_hash

abbrev pub unconsumed : OtaDownloadToken → Bool
unconsumed r = is_none r.consumed_at

abbrev download_id : OtaDownloadToken → ℕ
download_id r = r.id

-- The token was issued, and no row of it is unconsumed.
abbrev pub DownloadSpent : String → Tables → Type 0
DownloadSpent h t = Spent download_hash unconsumed h t.ota_download_tokens

-- One row at most has the hash.
abbrev pub DownloadUnique : String → Tables → Type 0
DownloadUnique h t = Unique download_hash unconsumed h t.ota_download_tokens

some_and_none : (o : Option ℕ) → is_none o ≡ false → not (is_some o) ≡ true → ⊥
some_and_none none e f = cc e
some_and_none (some a) e f = cc f

abbrev Same : Tables → Tables → Type 0
Same t u = t ≡ u

same : IsPreorder Same
same = record { refl' = λ t. refl; trans' = λ t u v h k. h ∙ k }

check-Same : (r : OtaDownloadToken) (at : ℕ) → Keeps Same (check_downloadable r at)
unfolding check_downloadable
check-Same r at = search (keep_rules, same) depth 12

module _ (h : String) where
  abbrev StaysSpent : Tables → Tables → Type 0
  StaysSpent t u = DownloadSpent h t → DownloadSpent h u

  stays_spent : IsPreorder StaysSpent
  stays_spent = record { refl' = λ t s. s; trans' = λ t u v a b s. b (a s) }

  Spent-consume :
      (at id : ℕ) (xs : List OtaDownloadToken)
      → Spent download_hash unconsumed h xs
      → Spent download_hash unconsumed h (update_where (unconsumed_row id) (consumed_row at) xs)
  Spent-consume at id =
      Spent-update download_hash unconsumed h (unconsumed_row id) (consumed_row at) (λ r e. refl)
        (λ r e f. refl)

  mark-StaysSpent : (r : OtaDownloadToken) (at : ℕ) → Keeps StaysSpent (mark_consumed r at)
  unfolding mark_consumed
  mark-StaysSpent r at =
      search
        (
          keep_rules,
          stays_spent,
          exec-Keeps,
          λ (t : Tables). Spent-consume at r.id t.ota_download_tokens,
        )
        depth 20

  consume-StaysSpent : (k : String) (at : ℕ) → Keeps StaysSpent (consume_ota_download_token k at)
  unfolding consume_ota_download_token check_downloadable
  consume-StaysSpent k at = search (keep_rules, stays_spent, mark-StaysSpent) depth 20

  or_unavailable-Keeps : (o : Option (List ℕ)) → Keeps StaysSpent (or_unavailable o)
  or_unavailable-Keeps none = fail-Keeps stays_spent firmware_unavailable
  or_unavailable-Keeps (some b) = pure-Keeps stays_spent b

  opened-StaysSpent :
      (storage : String → Option (List ℕ)) (r : OtaDownloadToken)
      → Keeps StaysSpent (opened storage r)
  unfolding opened get_firmware
  opened-StaysSpent storage r = search (keep_rules, stays_spent, or_unavailable-Keeps) depth 20

  open-StaysSpent :
      (x : External) (storage : String → Option (List ℕ)) (raw : List ℕ)
      → Keeps StaysSpent (open_firmware_with_ota_download_token x storage raw)
  unfolding open_firmware_with_ota_download_token get_firmware
  open-StaysSpent x storage raw =
      search (keep_rules, stays_spent, consume-StaysSpent, opened-StaysSpent) depth 20

  insert-StaysSpent :
      (k : String) (q d c f e : ℕ) → Keeps StaysSpent (insert_ota_download_token k q d c f e)
  unfolding insert_ota_download_token
  insert-StaysSpent k q d c f e =
      search
        (
          keep_rules,
          stays_spent,
          exec_unique-Keeps_fresh,
          λ (id at : ℕ) (t : Tables).
              Spent-insert download_hash unconsumed h (download_token id at k q d c f e)
                t.ota_download_tokens,
        )
        depth 16

  issue-StaysSpent :
      (x : External) (q d c f : ℕ) (ttl : ℤ)
      → Keeps StaysSpent (issue_ota_download_token x q d c f ttl)
  unfolding issue_ota_download_token get_firmware draw
  issue-StaysSpent x q d c f ttl = search (keep_rules, stays_spent, insert-StaysSpent) depth 20

  -- The update that marks the row found leaves no other row of the hash open.
  marked :
      (at : ℕ) (r : OtaDownloadToken) (t : Tables)
      → DownloadUnique h t
      → find? (with_token_hash h) t.ota_download_tokens ≡ some r
      → Spent download_hash unconsumed h
          (update_where (unconsumed_row r.id) (consumed_row at) t.ota_download_tokens)
  marked at r t one found =
      shut-Spent download_hash unconsumed download_id h r.id (unconsumed_row r.id) (consumed_row at)
        (λ s e f. rw (e, f) refl) (λ s. refl) (λ s. refl) t.ota_download_tokens
        (found-Only download_hash unconsumed download_id h (with_token_hash h) (λ s e. e) r
          t.ota_download_tokens found one)

  abbrev FoundRow : OtaDownloadToken → Tables → Type 0
  FoundRow r t = DownloadUnique h t × (find? (with_token_hash h) t.ota_download_tokens ≡ some r)

  mark_spends :
      (r : OtaDownloadToken) (at : ℕ)
      → Returns (FoundRow r) (mark_consumed r at) (λ u. DownloadSpent h)
  unfolding mark_consumed
  mark_spends r at =
      bind-Triple {Q = λ n t. DownloadSpent h t} _ _ (exec-Returns _ (λ t p. marked at r t p.0 p.1))
        (λ n. weaken-Triple (λ u t p. p.0) (guard-Returns (ltb 0 n) token_consumed))

  consume_spends :
      (at : ℕ) → Returns (DownloadUnique h) (consume_ota_download_token h at) (λ r. DownloadSpent h)
  unfolding consume_ota_download_token
  consume_spends at = transaction-Returns _ (
      bind-Triple _ _ (catch-Returns _ _ (first-Returns _)) (λ r.
        bind-Triple _ _
          (Keeps-Returns (FoundRow r) (λ t u e p. subst (FoundRow r) e p) _ (check-Same r at))
          (λ u.
            bind-Triple _ _ (mark_spends r at) (λ v. pure-Triple (consumed_row at r) (λ t p. p)))))

  still_there :
      (r : OtaDownloadToken) (xs : List OtaDownloadToken)
      → any (λ s. str_eq s.token_hash h && is_none s.consumed_at) xs ≡ false
      → find? (with_token_hash h) xs ≡ some r
      → not (is_some r.consumed_at) ≡ true
      → ⊥
  still_there r [] e f g = cc f
  still_there r (x ∷ xs) e f g = elim (Bool-cases (with_token_hash h x)) [
    | inl k ↦
        let same : x ≡ r = ground arith in
        some_and_none x.consumed_at (ground arith)
          (subst (λ y. not (is_some y.consumed_at) ≡ true) (sym same) g)
    | inr k ↦ still_there r xs (ground arith) (rw k at f) g
  ]

  check_refused :
      (r : OtaDownloadToken) (at : ℕ)
      → Returns
          (λ t. DownloadSpent h t × (find? (with_token_hash h) t.ota_download_tokens ≡ some r))
          (check_downloadable r at)
          (λ u t. ⊥)
  unfolding check_downloadable
  check_refused r at =
      bind-Triple {Q = λ u t. ⊥} _ _
        (weaken-Triple (λ u t p. still_there r t.ota_download_tokens p.0.0.none_open p.0.1 p.1)
          (guard-Returns (not (is_some r.consumed_at)) token_consumed))
        (λ u. triple λ w p. absurd p)

  consume_refused :
      (at : ℕ) → Returns (DownloadSpent h) (consume_ota_download_token h at) (λ r t. ⊥)
  unfolding consume_ota_download_token
  consume_refused at = transaction-Returns _ (
      bind-Triple _ _ (catch-Returns _ _ (first-Returns _))
        (λ r. bind-Triple _ _ (check_refused r at) (λ u. triple λ w p. absurd p)))

-- The calls on download tokens: issuing one, with what it is for, and opening a download.
pub data Request : Type 0 where
  issue : ℕ → ℕ → ℕ → ℕ → ℤ → Request
  download : List ℕ → Request

module _ (x : External) (storage : String → Option (List ℕ)) where
  pub serve : Request → World Tables → World Tables
  serve (issue q d c f ttl) w = (issue_ota_download_token x q d c f ttl w).1
  serve (download raw) w = (open_firmware_with_ota_download_token x storage raw w).1

  pub serve_all : List Request → World Tables → World Tables
  serve_all [] w = w
  serve_all (r ∷ rs) w = serve_all rs (serve r w)

  serve-StaysSpent :
      (h : String) (r : Request) (w : World Tables) → StaysSpent h w.db (serve r w).db
  unfolding serve
  serve-StaysSpent h (issue q d c f ttl) = run-Keeps (issue-StaysSpent h x q d c f ttl)
  serve-StaysSpent h (download raw) = run-Keeps (open-StaysSpent h x storage raw)

  serve_all-StaysSpent :
      (h : String) (rs : List Request) (w : World Tables) → StaysSpent h w.db (serve_all rs w).db
  unfolding serve_all
  serve_all-StaysSpent h [] w s = s
  serve_all-StaysSpent h (r ∷ rs) w s =
      serve_all-StaysSpent h rs (serve r w) (serve-StaysSpent h r w s)

  module _ (raw : List ℕ) where
    open_spends :
        Returns
          (DownloadUnique (x.hash_token raw))
          (open_firmware_with_ota_download_token x storage raw)
          (λ a. DownloadSpent (x.hash_token raw))
    unfolding open_firmware_with_ota_download_token get_firmware
    open_spends =
        let h = x.hash_token raw in
        bind-Triple _ _ (guard-Returns (length raw == 64) invalid_ota_token) (λ u.
          with_fact (λ long. bind-Triple _ _ (guard-Returns (all_hex raw) invalid_ota_token) (λ v.
            with_fact (λ hex. bind-Triple _ _ now-Triple (λ at.
              bind-Triple _ _ (catch-Returns _ hide_refusal (consume_spends h at)) (λ r.
                Keeps-Returns (DownloadSpent h) (λ t u k. k) _ (opened-StaysSpent h storage r)))))))

    open_refused :
        Returns
          (DownloadSpent (x.hash_token raw))
          (open_firmware_with_ota_download_token x storage raw)
          (λ a t. ⊥)
    unfolding open_firmware_with_ota_download_token
    open_refused =
        let h = x.hash_token raw in
        bind-Triple _ _ (guard-Returns (length raw == 64) invalid_ota_token) (λ u.
          with_fact (λ long. bind-Triple _ _ (guard-Returns (all_hex raw) invalid_ota_token) (λ v.
            with_fact (λ hex. bind-Triple _ _ now-Triple (λ at.
              bind-Triple {Q = λ r t. ⊥} _ _ (catch-Returns _ hide_refusal (consume_refused h at))
                (λ r. triple λ w p. absurd p))))))

  -- A download token opens one download: where one row at most has its hash, once it opened a
  -- firmware no call with it opens one, whatever tokens are issued and opened in between, with any
  -- failures of the database.
  pub open_once :
      (raw : List ℕ) (rs : List Request) (w : World Tables) (a b : List ℕ × Firmware)
      → DownloadUnique (x.hash_token raw) w.db
      → (open_firmware_with_ota_download_token x storage raw w).0 ≡ ok a
      → ¬ (
          (open_firmware_with_ota_download_token x storage raw
            (serve_all rs (open_firmware_with_ota_download_token x storage raw w).1)).0
          ≡ ok b)
  open_once raw rs w a b one e f =
      let spent = run-Returns (open_spends raw) w one a e in
      let still = serve_all-StaysSpent (x.hash_token raw) rs _ spent in
      run-Returns (open_refused raw) _ still b f
