-- ===== src/Devotcp/Tests.antt =====
-- The theorems on the TCP protocol at concrete inputs.
use firmflow.Base.{
  ℕ, ◌+◌, ◌≡◌, ◌↔◌, refl, true, some, none, if◌then◌else◌, List, [], ◌∷◌, ◌++◌, length, replicate,
  arith, All, ltb,
}
use firmflow.Devotcp.Bytes.{IsByte}
use firmflow.Devotcp.Outcome.{returned}
use firmflow.Devotcp.Frame.{Frame, Writer, read_frame, write_frame}
use firmflow.Devotcp.Frame.RoundTrip.{Fits, after, wire, read_frame-write_frame}
use firmflow.Devotcp.Frame.Exact.{read_frame_iff}
use firmflow.Devotcp.Payload.{decode_auth_payload, decode_poll_payload, decode_report_payload}
use firmflow.Devotcp.Payload.Decoded.{
  auth_layout, poll_layout, decode_auth-layout, decode_poll-layout,
}
use firmflow.Devotcp.Payload.Reported.{report_layout, decode_report-layout}
use firmflow.Devotcp.Reply.{
  encode_failed, err_code_internal, send_offer, encode_poll_response, write_err,
}
use firmflow.Devotcp.Reply.Layout.{poll_response}
use firmflow.Devotcp.Reply.Sent.{
  too_long, flag_of, reply_of, error_of, encode_poll-layout, poll_reply_sent, write_err_sent,
}

abbrev hello : Frame
hello = record { msg_type = 2; req_id = 77; payload = 0 ∷ 1 ∷ 0x31 ∷ [] }

hello-Fits : Fits hello
hello-Fits = record { type_fits = omega arith; id_fits = omega arith; payload_fits = omega arith }

abbrev fresh : Writer
fresh = record { sent = []; room = 100000 }

read_frame-write_frame_example :
    (bytes : List ℕ) × (write_frame 2 77 (0 ∷ 1 ∷ 0x31 ∷ []) fresh
      ≡ (returned tt, after fresh bytes))
    × (read_frame (bytes ++ (0x46 ∷ [])) ≡ returned (hello, 0x46 ∷ []))
read_frame-write_frame_example =
    read_frame-write_frame hello fresh (0x46 ∷ []) hello-Fits (omega arith)

abbrev odd_flags : List ℕ
odd_flags =
    0x46 ∷ 0x52 ∷ 0x4d ∷ 0x31 ∷ 1 ∷ 9 ∷ 0 ∷ 2 ∷ 0 ∷ 0 ∷ 0 ∷ 77 ∷ 0 ∷ 0 ∷ 0 ∷ 3 ∷ 0 ∷ 1 ∷ 0x31 ∷ []

odd_flags-bytes : All IsByte odd_flags
odd_flags-bytes = (
  omega arith,
  (
    omega arith,
    (
      omega arith,
      (
        omega arith,
        (
          omega arith,
          (
            omega arith,
            (
              omega arith,
              (
                omega arith,
                (
                  omega arith,
                  (
                    omega arith,
                    (
                      omega arith,
                      (
                        omega arith,
                        (
                          omega arith,
                          (
                            omega arith,
                            (
                              omega arith,
                              (omega arith, (omega arith, (omega arith, (omega arith, tt)))),
                            ),
                          ),
                        ),
                      ),
                    ),
                  ),
                ),
              ),
            ),
          ),
        ),
      ),
    ),
  ),
)

read_frame_iff_example :
    (read_frame odd_flags ≡ returned (hello, []))
    ↔ ((flags : ℕ) × (odd_flags ≡ wire flags hello ++ []) × Fits hello)
read_frame_iff_example = read_frame_iff odd_flags hello [] odd_flags-bytes

decode_auth-layout_example :
    decode_auth_payload (0 ∷ 2 ∷ 0x61 ∷ 0x20 ∷ []) ≡ auth_layout (0 ∷ 2 ∷ 0x61 ∷ 0x20 ∷ [])
decode_auth-layout_example = decode_auth-layout (0 ∷ 2 ∷ 0x61 ∷ 0x20 ∷ [])

decode_poll-layout_example :
    decode_poll_payload (0 ∷ 1 ∷ 0x31 ∷ 0 ∷ 1 ∷ 0x6d ∷ [])
    ≡ poll_layout (0 ∷ 1 ∷ 0x31 ∷ 0 ∷ 1 ∷ 0x6d ∷ [])
decode_poll-layout_example = decode_poll-layout (0 ∷ 1 ∷ 0x31 ∷ 0 ∷ 1 ∷ 0x6d ∷ [])

decode_report-layout_example :
    decode_report_payload (replicate 16 5 ++ (1 ∷ 0 ∷ 7 ∷ 0 ∷ 1 ∷ 0x65 ∷ []))
    ≡ report_layout (replicate 16 5) 1 0 7 (0 ∷ 1 ∷ 0x65 ∷ [])
decode_report-layout_example = decode_report-layout (replicate 16 5) (0 ∷ 1 ∷ 0x65 ∷ []) 1 0 7 refl

abbrev version : List ℕ
version = 0x31 ∷ []

abbrev url : List ℕ
url = 0x68 ∷ 0x74 ∷ []

encode_poll-layout_example :
    encode_poll_response true version url (replicate 32 8) (replicate 16 5) (replicate 16 6) 99
    ≡ returned (
        if too_long version url
        then none
        else some (
            poll_response
              (flag_of true)
              version
              url
              (replicate 32 8)
              (replicate 16 5)
              (replicate 16 6)
              99))
encode_poll-layout_example =
    encode_poll-layout true version url (replicate 32 8) (replicate 16 5) (replicate 16 6) 99 refl
      refl refl

poll_reply_sent_example :
    send_offer 77 version url (replicate 32 8) (replicate 16 5) (replicate 16 6) 99 fresh ≡ (
      returned tt,
      if too_long version url
          then after fresh (wire 0 (error_of 77 err_code_internal encode_failed))
          else if ltb 8119 (length version + length url)
          then fresh
          else after fresh (
              wire 0 (
                reply_of 77 (
                  poll_response 1 version url
                    (replicate 32 8)
                    (replicate 16 5)
                    (replicate 16 6)
                    99))),
    )
poll_reply_sent_example =
    poll_reply_sent 77 version url (replicate 32 8) (replicate 16 5) (replicate 16 6) 99 fresh refl
      refl refl (omega arith)

write_err_sent_example :
    write_err 77 4 (0x6e ∷ 0x6f ∷ []) fresh
    ≡ (returned tt, after fresh (wire 0 (error_of 77 4 (0x6e ∷ 0x6f ∷ []))))
write_err_sent_example = write_err_sent 77 4 (0x6e ∷ 0x6f ∷ []) fresh (omega arith)
