-- ===== src/Devotcp/Payload.antt =====
-- `decodeAuthPayload`, `decodePollPayload` and `decodeReportPayload` of
-- internal/transport/devotcp/protocol.go.
pub mod Slices
pub mod Fields
pub mod Decoded
pub mod Reported
use firmflow.Base.{ℕ, ◌+◌, Bool, not, if◌then◌else◌, List, [], ltb, leb, length}
use firmflow.Base.Text.{trim_space}
use firmflow.Devotcp.Outcome.{
  Outcome, returned, failed, bad_frame, ◌>>=◌, ◌>>◌, check, slice, index,
}
use firmflow.Devotcp.Bytes.{uint16}
use firmflow.Devotcp.Utf8.{clean}

unfoldable pub decode_auth_payload : List ℕ → Outcome (List ℕ)
decode_auth_payload p = do
  check (not (ltb (length p) 2)) bad_frame
  n ← slice p 0 2 >>= uint16
  check (not (ltb (length p) (2 + n))) bad_frame
  raw ← slice p 2 (2 + n)
  returned (trim_space (clean raw))

-- The part of `decodePollPayload` from `off` on.
unfoldable pub decode_meta : List ℕ → List ℕ → ℕ → Outcome (List ℕ × List ℕ)
decode_meta p cur off = if ltb (length p) (off + 2) then returned (trim_space cur, []) else do
  m ← slice p off (off + 2) >>= uint16
  check (not (ltb (length p) (off + 2 + m))) bad_frame
  meta ← slice p (off + 2) (off + 2 + m)
  returned (trim_space (clean cur), trim_space (clean meta))

-- The current version and the metadata.
unfoldable pub decode_poll_payload : List ℕ → Outcome (List ℕ × List ℕ)
unfolding decode_meta
decode_poll_payload p = do
  check (not (ltb (length p) 2)) bad_frame
  n ← slice p 0 2 >>= uint16
  check (not (ltb (length p) (2 + n))) bad_frame
  cur ← slice p 2 (2 + n)
  decode_meta p cur (2 + n)

pub record Report : Type 0 where
  pub campaign_id : List ℕ
  pub status : ℕ
  pub err_code : ℕ
  pub err_msg : List ℕ
  pub current_ver : List ℕ

-- The part of `decodeReportPayload` from the version on.
unfoldable pub decode_version : List ℕ → Report → ℕ → Outcome Report
decode_version p report off = if ltb (length p) (off + 2) then returned report else do
  cvl ← slice p off (off + 2) >>= uint16
  check (not (ltb (length p) (off + 2 + cvl))) bad_frame
  current_ver ← slice p (off + 2) (off + 2 + cvl)
  returned (record report {
    err_msg = trim_space (clean report.err_msg);
    current_ver = trim_space (clean current_ver);
  })

unfoldable pub decode_report_payload : List ℕ → Outcome Report
unfolding decode_version
decode_report_payload p = do
  check (not (ltb (length p) (16 + 1 + 2 + 2))) bad_frame
  campaign_id ← slice p 0 16
  status ← index p 16
  err_code ← slice p 17 19 >>= uint16
  check (not (ltb (length p) (19 + 2))) bad_frame
  eml ← slice p 19 (19 + 2) >>= uint16
  check (not (ltb (length p) (21 + eml))) bad_frame
  err_msg ← slice p 21 (21 + eml)
  decode_version p
      (record {
        campaign_id = campaign_id;
        status = status;
        err_code = err_code;
        err_msg = err_msg;
        current_ver = [];
      })
      (21 + eml)
