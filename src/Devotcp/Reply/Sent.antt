-- ===== src/Devotcp/Reply/Sent.antt =====
-- What the device gets of a poll reply and of an error reply.
use firmflow.Base.{
  true, ℕ, ◌+◌, ◌≡◌, ◌≤◌, ◌<◌, refl, ap, ◌∙◌, Bool, ◌||◌, Bool-cases, inl, inr, if◌then◌else◌, some,
  none, List, [], ◌∷◌, ◌++◌, ltb, length, take, arith, length-append, length-take,
}
use firmflow.Devotcp.Outcome.{returned}
use firmflow.Devotcp.Bytes.{be16, be32, copy_next, put_next}
use firmflow.Devotcp.Utf8.{length-clean}
use firmflow.Devotcp.Frame.{Frame, Writer}
use firmflow.Devotcp.Frame.RoundTrip.{
  wire, after, write_frame_enough, write_frame_too_big, append_nil,
}
use firmflow.Devotcp.Reply.{
  encode_failed, err_code_internal, send_body, send_offer, some_bytes, encode_poll_response,
  err_message, err_payload, send, write_err,
}
use firmflow.Devotcp.Reply.Layout.{poll_response, fill_poll_response_lem}

-- The texts that `encodePollResponse` refuses.
abbrev pub too_long : List ℕ → List ℕ → Bool
too_long tv du = ltb 2048 (length tv) || ltb 8192 (length du)

abbrev pub flag_of : Bool → ℕ
flag_of b = if b then 1 else 0

-- For a checksum of 32 bytes and ids of 16, `encodePollResponse` writes the flag, the version with
-- its length, the checksum, the campaign, the firmware, the URL with its length and the expiry one
-- behind the other, without leaving its buffer; a version of more than 2048 bytes or a URL of more
-- than 8192 is answered by nil.
pub encode_poll-layout :
    (b : Bool) (tv du checksum campaign_id firmware_id : List ℕ) (expires_unix : ℕ)
    → length checksum ≡ 32
    → length campaign_id ≡ 16
    → length firmware_id ≡ 16
    → encode_poll_response b tv du checksum campaign_id firmware_id expires_unix
      ≡ returned (
          if too_long tv du
          then none
          else some (poll_response (flag_of b) tv du checksum campaign_id firmware_id expires_unix))
unfolding encode_poll_response some_bytes
encode_poll-layout b tv du cs ci fi ex hc hi hf = elim (Bool-cases (too_long tv du)) [
  | inl e ↦ rw e refl
  | inr e ↦ rw e (rw (fill_poll_response_lem (flag_of b) tv du cs ci fi ex hc hi hf) refl)
]

poll_response_size :
    (flag : ℕ) (tv du checksum campaign_id firmware_id : List ℕ) (expires_unix : ℕ)
    → length checksum ≡ 32
    → length campaign_id ≡ 16
    → length firmware_id ≡ 16
    → length (poll_response flag tv du checksum campaign_id firmware_id expires_unix)
      ≡ 73 + length tv + length du
unfolding poll_response
poll_response_size flag tv du cs ci fi ex hc hi hf =
    let a2 = (flag ∷ []) ++ be16 (length tv) in
    let a3 = a2 ++ tv in
    let a4 = a3 ++ cs in
    let a5 = a4 ++ ci in
    let a6 = a5 ++ fi in
    let a7 = a6 ++ be16 (length du) in
    let a8 = a7 ++ du in
    omega (
      arith,
      hc,
      hi,
      hf,
      length-append a2 tv,
      length-append a3 cs,
      length-append a4 ci,
      length-append a5 fi,
      length-append a6 (be16 (length du)),
      length-append a7 du,
      length-append a8 (be32 ex),
    )

-- The frame of a poll reply.
abbrev pub reply_of : ℕ → List ℕ → Frame
reply_of req_id payload = record { msg_type = 129; req_id = req_id; payload = payload }

err_payload_lem :
    (code : ℕ) (msg : List ℕ)
    → err_payload code msg ≡ returned ((be32 code ++ be16 (length msg)) ++ msg)
unfolding err_payload
err_payload_lem code msg =
    let n = length msg in
    rw (put_next 0 [] (be32 code) (4 + 2 + n) (2 + n) refl (omega arith)) (
      rw (put_next 4 (be32 code) (be16 n) (2 + n) n refl (omega arith)) (
        copy_next 6 (be32 code ++ be16 n) msg n 0 refl (omega arith)
        ∙ ap returned (append_nil ((be32 code ++ be16 n) ++ msg))))

length-err_message : (msg : List ℕ) → length (err_message msg) ≤ 512
unfolding err_message
length-err_message msg = elim (Bool-cases (ltb 512 (length msg))) [
  | inl e ↦ rw e (omega (arith, length-clean (take 512 msg), length-take 512 msg))
  | inr e ↦
      let short : length msg ≤ 512 = ground arith in rw e (omega (arith, length-clean msg, short))
]

abbrev pub error_of : ℕ → ℕ → List ℕ → Frame
error_of req_id code msg = record {
  msg_type = 255;
  req_id = req_id;
  payload = (be32 code ++ be16 (length (err_message msg))) ++ err_message msg;
}

-- An error reply, for a message of any length and any bytes, is never refused as too large: it is
-- sent as its code, the length of the shortened message and this message.
pub write_err_sent :
    (req_id code : ℕ) (msg : List ℕ) (w : Writer)
    → 534 ≤ w.room
    → write_err req_id code msg w ≡ (returned tt, after w (wire 0 (error_of req_id code msg)))
unfolding write_err send
write_err_sent r code msg w h =
    let m = err_message msg in
    let head : List ℕ = be32 code ++ be16 (length m) in
    let small = length-err_message msg in
    rw (err_payload_lem code m) (
      write_frame_enough (error_of r code msg) w (omega (arith, length-append head m, small))
        (omega (arith, length-append head m, small, h)))

-- What the device gets for an offer on a connection that takes a frame of any size. A version of more
-- than 2048 bytes or a URL of more than 8192 is answered by the error "encode failed"; a version and
-- URL of more than 8119 bytes together are answered by nothing; any other offer is sent whole.
pub poll_reply_sent :
    (req_id : ℕ) (tv du checksum campaign_id firmware_id : List ℕ) (expires_unix : ℕ) (w : Writer)
    → length checksum ≡ 32
    → length campaign_id ≡ 16
    → length firmware_id ≡ 16
    → 8208 ≤ w.room
    → send_offer req_id tv du checksum campaign_id firmware_id expires_unix w ≡ (
      returned tt,
      if too_long tv du
          then after w (wire 0 (error_of req_id err_code_internal encode_failed))
          else if ltb 8119 (length tv + length du)
          then w
          else after w (
              wire 0 (
                reply_of req_id
                  (poll_response 1 tv du checksum campaign_id firmware_id expires_unix))),
    )
unfolding send_offer send_body
poll_reply_sent r tv du cs ci fi ex w hc hi hf room =
    let out = poll_response 1 tv du cs ci fi ex in
    let size = poll_response_size 1 tv du cs ci fi ex hc hi hf in
    let encoded = encode_poll-layout true tv du cs ci fi ex hc hi hf in
    elim (Bool-cases (too_long tv du)) [
      | inl e ↦
          rw (encoded, e)
            (rw (write_err_sent r err_code_internal encode_failed w (omega (arith, room))) refl)
      | inr e ↦ elim (Bool-cases (ltb 8119 (length tv + length du))) [
        | inl k ↦
            let long : 8119 < length tv + length du = ground arith in
            rw (encoded, e, k)
              (rw (write_frame_too_big (reply_of r out) w (omega (arith, size, long))) refl)
        | inr k ↦
            let short : length tv + length du ≤ 8119 = ground arith in
            rw (encoded, e, k)
              (rw
                (write_frame_enough (reply_of r out) w (omega (arith, size, short))
                  (omega (arith, size, short, room)))
                refl)
      ]
    ]
