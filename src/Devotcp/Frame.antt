-- ===== src/Devotcp/Frame.antt =====
-- `readFrame` and `writeFrame` of internal/transport/devotcp/protocol.go.
pub mod RoundTrip
pub mod Fields
pub mod Exact
use firmflow.Base.{
  ℕ, zero, suc, ◌+◌, ◌-◌, Bool, true, false, ◌&&◌, if◌then◌else◌, List, [], ◌∷◌, ◌++◌, ltb, leb,
  ◌==◌, length, take, replicate,
}
use firmflow.Devotcp.Outcome.{
  Outcome, WireError, returned, failed, bad_frame, payload_too_big, connection, ◌>>=◌, ◌>>◌, check,
  slice, index, read_full,
}
use firmflow.Devotcp.Bytes.{be16, be32, uint16, uint32, put}

abbrev pub frame_header_len : ℕ
frame_header_len = 16

abbrev pub max_payload_len : ℕ
max_payload_len = 8192

abbrev pub proto_ver : ℕ
proto_ver = 1

pub record Frame : Type 0 where
  pub msg_type : ℕ
  pub req_id : ℕ
  pub payload : List ℕ

-- The tests on the magic bytes and on the version; the flags byte `hdr[5]` is not looked at.
unfoldable pub check_header : List ℕ → Outcome (Unit {0})
check_header hdr = do
  m0 ← index hdr 0
  m1 ← index hdr 1
  m2 ← index hdr 2
  m3 ← index hdr 3
  check ((m0 == 0x46) && ((m1 == 0x52) && ((m2 == 0x4d) && (m3 == 0x31)))) bad_frame
  v ← index hdr 4
  check (v == proto_ver) bad_frame

unfoldable pub read_payload : ℕ → List ℕ → Outcome (List ℕ × List ℕ)
read_payload payload_len input =
    if ltb max_payload_len payload_len
    then failed payload_too_big
    else if ltb 0 payload_len
    then read_full payload_len input
    else returned ([], input)

-- The frame of the fields, and what the connection still holds.
unfoldable pub read_fields : ℕ → ℕ → ℕ → List ℕ → Outcome (Frame × List ℕ)
unfolding read_payload
read_fields msg_type req_id payload_len rest = do
  (payload, left) ← read_payload payload_len rest
  returned (record { msg_type = msg_type; req_id = req_id; payload = payload }, left)

unfoldable pub read_behind : List ℕ × List ℕ → Outcome (Frame × List ℕ)
unfolding check_header read_fields
read_behind (hdr, rest) = do
  check_header hdr
  msg_type ← slice hdr 6 8 >>= uint16
  req_id ← slice hdr 8 12 >>= uint32
  payload_len ← slice hdr 12 16 >>= uint32
  read_fields msg_type req_id payload_len rest

unfoldable pub read_frame : List ℕ → Outcome (Frame × List ℕ)
unfolding read_behind
read_frame input = read_full frame_header_len input >>= read_behind

-- A connection that takes `room` more bytes; a write of more sends what fits and fails.
pub record Writer : Type 0 where
  pub sent : List ℕ
  pub room : ℕ

unfoldable pub write : List ℕ → Writer → Outcome (Unit {0}) × Writer
write bs w =
    if leb (length bs) w.room
    then (returned tt, record { sent = w.sent ++ bs; room = w.room - length bs })
    else (failed connection, record { sent = w.sent ++ take w.room bs; room = 0 })

-- `hdr`, the array that is filled in field by field.
unfoldable pub header : ℕ → ℕ → ℕ → Outcome (List ℕ)
header msg_type req_id len = do
  magic ← put 0 (0x46 ∷ 0x52 ∷ 0x4d ∷ 0x31 ∷ []) (replicate frame_header_len 0)
  version ← put 4 (proto_ver ∷ 0 ∷ []) magic
  typed ← put 6 (be16 msg_type) version
  numbered ← put 8 (be32 req_id) typed
  put 12 (be32 len) numbered

-- `if _, err := w.Write(bs); err != nil { return err }`, with what comes after it.
unfoldable pub write_then :
    Outcome (Unit {0}) × Writer
    → (Writer → Outcome (Unit {0}) × Writer)
    → Outcome (Unit {0}) × Writer
write_then (returned u, w) k = k w
write_then (failed e, w) k = (failed e, w)
write_then (Outcome.panicked, w) k = (Outcome.panicked, w)

unfoldable pub write_payload : List ℕ → Writer → Outcome (Unit {0}) × Writer
write_payload payload w = if ltb 0 (length payload) then write payload w else (returned tt, w)

write_parts : Outcome (List ℕ) → List ℕ → Writer → Outcome (Unit {0}) × Writer
unfolding write_then write_payload
write_parts (returned hdr) payload w = write_then (write hdr w) (write_payload payload)
write_parts (failed e) payload w = (failed e, w)
write_parts Outcome.panicked payload w = (Outcome.panicked, w)

unfoldable pub write_frame : ℕ → ℕ → List ℕ → Writer → Outcome (Unit {0}) × Writer
unfolding header write_parts
write_frame msg_type req_id payload w =
    if ltb max_payload_len (length payload)
    then (failed payload_too_big, w)
    else write_parts (header msg_type req_id (length payload)) payload w
