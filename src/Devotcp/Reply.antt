-- ===== src/Devotcp/Reply.antt =====
-- `encodePollResponse` and `writeErr` of internal/transport/devotcp/protocol.go, and the reply that
-- `handlePoll` of handler.go makes with them.
pub mod Layout
pub mod Sent
use firmflow.Base.{
  ℕ, ◌+◌, Bool, true, false, ◌||◌, if◌then◌else◌, Option, some, none, List, [], ◌∷◌, ltb, length,
  take, replicate,
}
use firmflow.Devotcp.Outcome.{Outcome, WireError, returned, failed, panicked, ◌>>=◌}
use firmflow.Devotcp.Bytes.{be16, be32, copy, put}
use firmflow.Devotcp.Utf8.{clean}
use firmflow.Devotcp.Frame.{Writer, write_frame}

-- `out[o] = flag` and so on, with the offset `o` that moves on.
unfoldable pub fill_poll_response :
    ℕ → List ℕ → List ℕ → List ℕ → List ℕ → List ℕ → ℕ → Outcome (List ℕ)
fill_poll_response flag tv du checksum campaign_id firmware_id expires_unix = do
  let out : List ℕ = replicate (1 + 2 + length tv + 32 + 16 + 16 + 2 + length du + 4) 0
  out ← put 0 (flag ∷ []) out
  let o : ℕ = 1
  out ← put o (be16 (length tv)) out
  let o : ℕ = o + 2
  out ← copy o tv out
  let o : ℕ = o + length tv
  out ← copy o checksum out
  let o : ℕ = o + 32
  out ← copy o campaign_id out
  let o : ℕ = o + 16
  out ← copy o firmware_id out
  let o : ℕ = o + 16
  out ← put o (be16 (length du)) out
  let o : ℕ = o + 2
  out ← copy o du out
  let o : ℕ = o + length du
  put o (be32 expires_unix) out

unfoldable pub some_bytes : Outcome (List ℕ) → Outcome (Option (List ℕ))
some_bytes out = out >>= λ bytes. returned (some bytes)

-- `none` is the nil slice.
unfoldable pub encode_poll_response :
    Bool → List ℕ → List ℕ → List ℕ → List ℕ → List ℕ → ℕ → Outcome (Option (List ℕ))
unfolding fill_poll_response some_bytes
encode_poll_response update_available tv du checksum campaign_id firmware_id expires_unix =
    let flag : ℕ = if update_available then 1 else 0 in
    if ltb 2048 (length tv) || ltb 8192 (length du)
    then returned none
    else some_bytes (fill_poll_response flag tv du checksum campaign_id firmware_id expires_unix)

-- The message that is sent: no more than 512 bytes, cleaned.
unfoldable pub err_message : List ℕ → List ℕ
err_message msg = clean (if ltb 512 (length msg) then take 512 msg else msg)

unfoldable pub err_payload : ℕ → List ℕ → Outcome (List ℕ)
err_payload code msg = do
  b ← put 0 (be32 code) (replicate (4 + 2 + length msg) 0)
  b ← put 4 (be16 (length msg)) b
  copy 6 msg b

unfoldable pub send : ℕ → ℕ → Outcome (List ℕ) → Writer → Outcome (Unit {0}) × Writer
send msg_type req_id (returned payload) w = write_frame msg_type req_id payload w
send msg_type req_id (failed e) w = (failed e, w)
send msg_type req_id panicked w = (panicked, w)

unfoldable pub write_err : ℕ → ℕ → List ℕ → Writer → Outcome (Unit {0}) × Writer
unfolding err_message err_payload send
write_err req_id code msg w = send 255 req_id (err_payload code (err_message msg)) w

-- `_ = …`: the error is thrown away.
abbrev dropped : Outcome (Unit {0}) × Writer → Outcome (Unit {0}) × Writer
dropped (returned u, w) = (returned u, w)
dropped (failed e, w) = (returned tt, w)
dropped (panicked, w) = (panicked, w)

abbrev pub err_code_internal : ℕ
err_code_internal = 5

-- "encode failed".
abbrev pub encode_failed : List ℕ
encode_failed =
    0x65 ∷ 0x6e ∷ 0x63 ∷ 0x6f ∷ 0x64 ∷ 0x65 ∷ 0x20 ∷ 0x66 ∷ 0x61 ∷ 0x69 ∷ 0x6c ∷ 0x65 ∷ 0x64 ∷ []

unfoldable pub send_body : ℕ → Outcome (Option (List ℕ)) → Writer → Outcome (Unit {0}) × Writer
send_body req_id (returned none) w = dropped (write_err req_id err_code_internal encode_failed w)
send_body req_id (returned (some body)) w = dropped (write_frame 129 req_id body w)
send_body req_id (failed e) w = (failed e, w)
send_body req_id panicked w = (panicked, w)

-- The end of `handlePoll`: what is sent for an offer.
unfoldable pub send_offer :
    ℕ → List ℕ → List ℕ → List ℕ → List ℕ → List ℕ → ℕ → Writer → Outcome (Unit {0}) × Writer
unfolding send_body
send_offer req_id version url checksum campaign_id firmware_id expires_unix w =
    send_body req_id
      (encode_poll_response true version url checksum campaign_id firmware_id expires_unix) w
