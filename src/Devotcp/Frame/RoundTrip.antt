-- ===== src/Devotcp/Frame/RoundTrip.antt =====
-- A frame as bytes, written and read.
use firmflow.Base.{
  ℕ, ◌+◌, ◌-◌, ◌*◌, ◌≤◌, ◌<◌, ◌/◌, ◌%◌, ◌≡◌, refl, ap, sym, ◌∙◌, true, false, List, [], ◌∷◌, ◌++◌,
  ltb, leb, length, drop, arith, length-append, take-length-append, drop-length-append,
}
use firmflow.Devotcp.Outcome.{returned, failed, payload_too_big, slice, index, read_full}
use firmflow.Devotcp.Bytes.{be16, be32, put}
use firmflow.Devotcp.Frame.{
  Frame, Writer, read_frame, read_payload, read_fields, read_behind, check_header, header, write,
  write_then, write_payload, write_frame, max_payload_len,
}

-- Magic, version, flags, type, request, length: the layout of docs/device-tcp-protocol.md.
abbrev pub wire_header : ℕ → ℕ → ℕ → ℕ → List ℕ
wire_header flags t r n = 0x46 ∷ 0x52 ∷ 0x4d ∷ 0x31 ∷ 1 ∷ flags ∷ (be16 t ++ (be32 r ++ be32 n))

abbrev pub wire : ℕ → Frame → List ℕ
wire flags f = wire_header flags f.msg_type f.req_id (length f.payload) ++ f.payload

-- The fields fit their bytes, and the payload fits a frame.
pub record Fits (f : Frame) : Type 0 where
  pub type_fits : f.msg_type < 65536
  pub id_fits : f.req_id < 4294967296
  pub payload_fits : length f.payload ≤ 8192

header-wire : (t r n : ℕ) → header t r n ≡ returned (wire_header 0 t r n)
unfolding header put
header-wire t r n = refl

read_full-append : (xs ys : List ℕ) → read_full (length xs) (xs ++ ys) ≡ returned (xs, ys)
unfolding read_full
read_full-append xs ys =
    let enough : leb (length xs) (length (xs ++ ys)) ≡ true = ground (arith, length-append xs ys) in
    rw enough (
      ap returned (
        ap (λ l. (l, drop (length xs) (xs ++ ys))) (take-length-append xs ys)
        ∙ ap (λ l. (xs, l)) (drop-length-append xs ys)))

read_payload-append :
    (p rest : List ℕ) → length p ≤ 8192 → read_payload (length p) (p ++ rest) ≡ returned (p, rest)
unfolding read_payload
read_payload-append [] rest h = refl
read_payload-append (b ∷ p) rest h =
    let small : ltb max_payload_len (length (b ∷ p)) ≡ false = ground (arith, h) in
    let some_bytes : ltb 0 (length (b ∷ p)) ≡ true = ground arith in
    rw small (rw some_bytes (read_full-append (b ∷ p) rest))

read_header :
    (flags t r n : ℕ) (input : List ℕ)
    → read_full 16 (wire_header flags t r n ++ input) ≡ returned (wire_header flags t r n, input)
read_header flags t r n input = read_full-append (wire_header flags t r n) input

read_fields-payload :
    (t r n : ℕ) (p rest : List ℕ)
    → n ≡ length p
    → length p ≤ 8192
    → read_fields t r n (p ++ rest)
      ≡ returned (record { msg_type = t; req_id = r; payload = p }, rest)
unfolding read_fields
read_fields-payload t r n p rest e h = rw e (rw (read_payload-append p rest h) refl)

value16 : ℕ → ℕ
value16 n = n / 256 % 256 * 256 + n % 256

value32 : ℕ → ℕ
value32 n = n / 16777216 % 256 * 16777216 + n / 65536 % 256 * 65536 + n / 256 % 256 * 256 + n % 256

value16_lem : (n : ℕ) → n < 65536 → value16 n ≡ n
unfolding value16
value16_lem n h = omega arith

value32_lem : (n : ℕ) → n < 4294967296 → value32 n ≡ n
unfolding value32
value32_lem n h = omega arith

read_behind-header :
    (flags t r n : ℕ) (rest : List ℕ)
    → read_behind (wire_header flags t r n, rest)
      ≡ read_fields (value16 t) (value32 r) (value32 n) rest
unfolding read_behind check_header index slice value16 value32
read_behind-header flags t r n rest = refl

read_behind-wire :
    (flags : ℕ) (f : Frame) (rest : List ℕ)
    → Fits f
    → read_behind (wire_header flags f.msg_type f.req_id (length f.payload), f.payload ++ rest)
      ≡ returned (f, rest)
read_behind-wire flags f rest h =
    let n : ℕ = length f.payload in
    let small : n < 4294967296 = omega (arith, h.payload_fits) in
    rw (read_behind-header flags f.msg_type f.req_id n (f.payload ++ rest)) (
      rw (value16_lem f.msg_type h.type_fits) (
        rw (value32_lem f.req_id h.id_fits) (
          read_fields-payload f.msg_type f.req_id (value32 n) f.payload rest (value32_lem n small)
            h.payload_fits)))

pub read_frame-wire :
    (flags : ℕ) (f : Frame) (rest : List ℕ)
    → Fits f
    → read_frame (wire flags f ++ rest) ≡ returned (f, rest)
unfolding read_frame
read_frame-wire flags f rest h =
    rw (read_header flags f.msg_type f.req_id (length f.payload) (f.payload ++ rest))
      (read_behind-wire flags f rest h)

write_enough :
    (bs : List ℕ) (w : Writer)
    → length bs ≤ w.room
    → write bs w ≡ (returned tt, record { sent = w.sent ++ bs; room = w.room - length bs })
unfolding write
write_enough bs w h = let fits : leb (length bs) w.room ≡ true = ground (arith, h) in rw fits refl

pub append_nil : (xs : List ℕ) → xs ++ [] ≡ xs
append_nil [] = refl
append_nil (x ∷ xs) = ap (λ l. x ∷ l) (append_nil xs)

append_assoc : (xs ys zs : List ℕ) → (xs ++ ys) ++ zs ≡ xs ++ (ys ++ zs)
append_assoc [] ys zs = refl
append_assoc (x ∷ xs) ys zs = ap (λ l. x ∷ l) (append_assoc xs ys zs)

write_payload_enough :
    (p : List ℕ) (w : Writer)
    → length p ≤ w.room
    → write_payload p w ≡ (returned tt, record { sent = w.sent ++ p; room = w.room - length p })
unfolding write_payload
write_payload_enough [] w h =
    let same_room : w.room ≡ w.room - 0 = omega arith in
    ap (λ l. (returned tt, record { sent = l; room = w.room })) (sym (append_nil w.sent))
    ∙ ap (λ (n : ℕ). (returned tt, record { sent = w.sent ++ []; room = n })) same_room
write_payload_enough (b ∷ p) w h =
    let some_bytes : ltb 0 (length (b ∷ p)) ≡ true = ground arith in
    rw some_bytes (write_enough (b ∷ p) w h)

-- The writer once it has taken some bytes.
abbrev pub after : Writer → List ℕ → Writer
after w bs = record { sent = w.sent ++ bs; room = w.room - length bs }

after-after :
    (w : Writer) (xs ys : List ℕ)
    → length xs + length ys ≤ w.room
    → after (after w xs) ys ≡ after w (xs ++ ys)
after-after w xs ys h =
    let rooms : (w.room - length xs) - length ys ≡ w.room - length (xs ++ ys) =
      omega (arith, length-append xs ys) in
    ap (λ l. record { sent = l; room = (w.room - length xs) - length ys })
      (append_assoc w.sent xs ys)
    ∙ ap (λ (n : ℕ). record { sent = w.sent ++ (xs ++ ys); room = n }) rooms

write_frame_parts :
    (f : Frame) (w : Writer)
    → length f.payload ≤ 8192
    → 16 + length f.payload ≤ w.room
    → write_frame f.msg_type f.req_id f.payload w ≡ (
      returned tt,
      after (after w (wire_header 0 f.msg_type f.req_id (length f.payload))) f.payload,
    )
unfolding write_frame write_then
write_frame_parts f w h k =
    let n : ℕ = length f.payload in
    let hdr : List ℕ = wire_header 0 f.msg_type f.req_id n in
    let small : ltb max_payload_len n ≡ false = ground (arith, h) in
    let room_hdr : length hdr ≤ w.room = omega (arith, k) in
    let room_payload : n ≤ w.room - length hdr = omega (arith, k) in
    rw small (
      rw (header-wire f.msg_type f.req_id n) (
        rw (write_enough hdr w room_hdr)
          (write_payload_enough f.payload (after w hdr) room_payload)))

pub write_frame_enough :
    (f : Frame) (w : Writer)
    → length f.payload ≤ 8192
    → 16 + length f.payload ≤ w.room
    → write_frame f.msg_type f.req_id f.payload w ≡ (returned tt, after w (wire 0 f))
write_frame_enough f w h k =
    write_frame_parts f w h k
    ∙ ap (λ v. (returned tt, v))
        (after-after w (wire_header 0 f.msg_type f.req_id (length f.payload)) f.payload k)

-- A frame whose fields fit is written whole when the connection takes it, as some bytes behind
-- those sent before; and these bytes, whatever follows them, are read as the same frame, which
-- leaves what follows.
pub read_frame-write_frame :
    (f : Frame) (w : Writer) (rest : List ℕ)
    → Fits f
    → 16 + length f.payload ≤ w.room
    → (bytes : List ℕ) × (write_frame f.msg_type f.req_id f.payload w
        ≡ (returned tt, after w bytes))
      × (read_frame (bytes ++ rest) ≡ returned (f, rest))
read_frame-write_frame f w rest h k =
    (wire 0 f, write_frame_enough f w h.payload_fits k, read_frame-wire 0 f rest h)

-- A payload beyond the limit is refused before anything is sent.
pub write_frame_too_big :
    (f : Frame) (w : Writer)
    → 8192 < length f.payload
    → write_frame f.msg_type f.req_id f.payload w ≡ (failed payload_too_big, w)
unfolding write_frame
write_frame_too_big f w h =
    let big : ltb max_payload_len (length f.payload) ≡ true = ground (arith, h) in rw big refl
