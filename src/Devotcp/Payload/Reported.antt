-- ===== src/Devotcp/Payload/Reported.antt =====
-- `decodeReportPayload` against the layout of docs/device-tcp-protocol.md.
use firmflow.Base.{
  ℕ, ◌+◌, ◌*◌, ◌≡◌, ◌≤◌, ◌<◌, refl, ap, sym, subst, ◌∙◌, true, false, not, if◌then◌else◌, List, [],
  ◌∷◌, ◌++◌, ltb, length, arith, length-append,
}
use firmflow.Base.Text.{trim_space}
use firmflow.Devotcp.Utf8.{clean}
use firmflow.Devotcp.Outcome.{Outcome, returned, failed, bad_frame, slice, index}
use firmflow.Devotcp.Payload.{Report, decode_version, decode_report_payload}
use firmflow.Devotcp.Payload.Slices.{text_field, slice_behind, long_enough, too_short}
use firmflow.Devotcp.Payload.Fields.{with_text, read_text, read_text_field, append_assoc}
use firmflow.Devotcp.Payload.Decoded.{left_of, behind_text}

version_layout : Report → List ℕ → Outcome Report
version_layout report rest =
    if ltb (length rest) 2
    then returned report
    else with_text (text_field rest) (λ ver more. returned (record report {
      err_msg = trim_space (clean report.err_msg);
      current_ver = trim_space (clean ver);
    }))

decode_version-layout :
    (pre rest : List ℕ) (report : Report)
    → decode_version (pre ++ rest) report (length pre) ≡ version_layout report rest
unfolding decode_version version_layout
decode_version-layout pre [] report = rw (left_of pre []) refl
decode_version-layout pre (x ∷ []) report = rw (left_of pre (x ∷ [])) refl
decode_version-layout pre (x ∷ y ∷ r) report =
    let long : ltb (length (x ∷ y ∷ r)) 2 ≡ false = ground arith in
    rw (left_of pre (x ∷ y ∷ r)) (
      rw long (
        read_text_field pre r x y (λ n ver. returned (record report {
          err_msg = trim_space (clean report.err_msg);
          current_ver = trim_space (clean ver);
        }))))

report_of : List ℕ → ℕ → ℕ → ℕ → List ℕ → Report
report_of id status hi lo msg = record {
  campaign_id = id;
  status = status;
  err_code = hi * 256 + lo;
  err_msg = msg;
  current_ver = [];
}

-- What the layout says of a report behind its campaign, status and error code: a message, then a
-- version that may be missing.
unfoldable pub report_layout : List ℕ → ℕ → ℕ → ℕ → List ℕ → Outcome Report
unfolding version_layout report_of
report_layout id status hi lo rest =
    with_text (text_field rest) (λ msg more. version_layout (report_of id status hi lo msg) more)

index_behind : (xs ys : List ℕ) (y : ℕ) → index (xs ++ (y ∷ ys)) (length xs) ≡ returned y
unfolding index
index_behind [] ys y = refl
index_behind (x ∷ xs) ys y = index_behind xs ys y

-- The part of `decodeReportPayload` behind the error code.
abbrev message_and_version : List ℕ → List ℕ → ℕ → ℕ → ℕ → ℕ → List ℕ → Outcome Report
message_and_version p id status hi lo n msg =
    decode_version p (report_of id status hi lo msg) (21 + n)

fixed_part :
    (id rest : List ℕ) (status hi lo : ℕ)
    → length id ≡ 16
    → 2 ≤ length rest
    → decode_report_payload (id ++ (status ∷ hi ∷ lo ∷ rest))
      ≡ read_text
          (id ++ (status ∷ hi ∷ lo ∷ rest))
          19
          (message_and_version (id ++ (status ∷ hi ∷ lo ∷ rest)) id status hi lo)
unfolding decode_report_payload report_of
fixed_part id rest status hi lo h k =
    let p : List ℕ = id ++ (status ∷ hi ∷ lo ∷ rest) in
    let size : length p ≡ 19 + length rest =
      omega (arith, length-append id (status ∷ hi ∷ lo ∷ rest), h) in
    let long : not (ltb (length p) 21) ≡ true =
      long_enough 21 (length p) (omega (arith, size, k)) in
    let is_id : slice p 0 16 ≡ returned id =
      slice_behind [] id (status ∷ hi ∷ lo ∷ rest) 0 16 refl (omega (arith, h)) in
    let is_status : index p 16 ≡ returned status =
      subst (λ (i : ℕ). index p i ≡ returned status) h (index_behind id (hi ∷ lo ∷ rest) status) in
    let parts : p ≡ (id ++ (status ∷ [])) ++ ((hi ∷ lo ∷ []) ++ rest) =
      sym (append_assoc id (status ∷ []) (hi ∷ lo ∷ rest)) in
    let is_code : slice p 17 19 ≡ returned (hi ∷ lo ∷ []) =
      ap (λ l. slice l 17 19) parts
      ∙ slice_behind (id ++ (status ∷ [])) (hi ∷ lo ∷ []) rest 17 19
          (omega (arith, length-append id (status ∷ []), h)) refl in
    rw long (rw is_id (rw is_status (rw is_code refl)))

read_text_at :
    {A : Type 0} (pre r : List ℕ) (a b off : ℕ) (k : ℕ → List ℕ → Outcome A)
    → length pre ≡ off
    → read_text (pre ++ (a ∷ b ∷ r)) off k
      ≡ with_text (text_field (a ∷ b ∷ r)) (λ text rest. k (a * 256 + b) text)
read_text_at pre r a b off k h =
    subst
      (λ (o : ℕ).
        read_text (pre ++ (a ∷ b ∷ r)) o k
        ≡ with_text (text_field (a ∷ b ∷ r)) (λ text rest. k (a * 256 + b) text))
      h (read_text_field pre r a b k)

behind_message :
    (pre r : List ℕ) (a b : ℕ) (id : List ℕ) (status hi lo : ℕ)
    → length pre ≡ 19
    → with_text
        (text_field (a ∷ b ∷ r))
        (λ msg rest. message_and_version (pre ++ (a ∷ b ∷ r)) id status hi lo (a * 256 + b) msg)
      ≡ report_layout id status hi lo (a ∷ b ∷ r)
unfolding report_layout
behind_message pre r a b id status hi lo h =
    behind_text pre r a b (message_and_version (pre ++ (a ∷ b ∷ r)) id status hi lo)
      (λ msg more. version_layout (report_of id status hi lo msg) more)
      (λ msg rest size whole.
        let report : Report = report_of id status hi lo msg in
        let off : 21 + (a * 256 + b) ≡ length (pre ++ (a ∷ b ∷ msg)) =
          omega (arith, length-append pre (a ∷ b ∷ msg), size, h) in
        ap (λ l. decode_version l report (21 + (a * 256 + b))) whole
        ∙ (ap (decode_version ((pre ++ (a ∷ b ∷ msg)) ++ rest) report) off
            ∙ decode_version-layout (pre ++ (a ∷ b ∷ msg)) rest report))

refused : (p : List ℕ) → length p < 21 → decode_report_payload p ≡ failed bad_frame
unfolding decode_report_payload
refused p h = rw (too_short 21 (length p) h) refl

-- On every payload that has a campaign, a status and an error code, `decodeReportPayload` is the
-- reading of the layout: behind them a message, then a version that is absent when less than two
-- bytes are left; the rest is refused, and nothing panics. Without a version the message is left
-- as it came, with one both texts are cleaned and trimmed.
pub decode_report-layout :
    (id rest : List ℕ) (status hi lo : ℕ)
    → length id ≡ 16
    → decode_report_payload (id ++ (status ∷ hi ∷ lo ∷ rest)) ≡ report_layout id status hi lo rest
unfolding report_layout
decode_report-layout id [] status hi lo h =
    refused _ (omega (arith, length-append id (status ∷ hi ∷ lo ∷ []), h))
decode_report-layout id (a ∷ []) status hi lo h =
    refused _ (omega (arith, length-append id (status ∷ hi ∷ lo ∷ a ∷ []), h))
decode_report-layout id (a ∷ b ∷ r) status hi lo h =
    let pre : List ℕ = id ++ (status ∷ hi ∷ lo ∷ []) in
    let p : List ℕ = id ++ (status ∷ hi ∷ lo ∷ a ∷ b ∷ r) in
    let size : length pre ≡ 19 = omega (arith, length-append id (status ∷ hi ∷ lo ∷ []), h) in
    let parts : p ≡ pre ++ (a ∷ b ∷ r) =
      sym (append_assoc id (status ∷ hi ∷ lo ∷ []) (a ∷ b ∷ r)) in
    fixed_part id (a ∷ b ∷ r) status hi lo h (omega arith)
    ∙ (ap (λ l. read_text l 19 (message_and_version l id status hi lo)) parts
        ∙ (read_text_at pre r a b 19 (message_and_version (pre ++ (a ∷ b ∷ r)) id status hi lo) size
            ∙ behind_message pre r a b id status hi lo size))

-- A payload without a campaign, a status and an error code is refused.
pub decode_report_short : (p : List ℕ) → length p < 19 → decode_report_payload p ≡ failed bad_frame
decode_report_short p h = refused p (omega (arith, h))
