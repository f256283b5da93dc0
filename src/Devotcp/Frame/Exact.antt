-- ===== src/Devotcp/Frame/Exact.antt =====
-- What `readFrame` accepts: exactly the frames of the documented layout, with any flags.
use firmflow.Base.{
  ℕ, ◌<◌, ◌≡◌, ◌↔◌, refl, ap, sym, subst, ◌∙◌, Bool, true, false, inl, inr, List, [], ◌∷◌, ◌++◌,
  ◌==◌, ◌&&◌, length, arith, All,
}
use firmflow.Devotcp.Outcome.{Outcome, returned, bad_frame, ◌>>◌, check, slice, index, read_full}
use firmflow.Devotcp.Bytes.{be16, be32, IsByte}
use firmflow.Devotcp.Frame.{Frame, read_frame, read_fields, read_behind, check_header}
use firmflow.Devotcp.Frame.RoundTrip.{wire, Fits, read_frame-wire}
use firmflow.Devotcp.Frame.Fields.{
  Four, bytes_of, sixteen, failed_is_not, read_full_exact, Outcome-cases, read_fields_exact,
  value16, value32, be16-value16, be32-value32,
}

abbrev is_magic : Four → Bool
is_magic a = (a.first == 0x46) && ((a.second == 0x52) && ((a.third == 0x4d) && (a.fourth == 0x31)))

-- Of what a header says: its tests, and then the fields.
header_check :
    (a b c d : Four) (rest : List ℕ)
    → read_behind (bytes_of a b c d, rest) ≡ (
        (check (is_magic a) bad_frame >> check (b.first == 1) bad_frame)
        >> read_fields
            (value16 b.third b.fourth)
            (value32 c.first c.second c.third c.fourth)
            (value32 d.first d.second d.third d.fourth)
            rest)
unfolding read_behind check_header index slice value16 value32
header_check a b c d rest = refl

check-returned :
    {A : Type 0} (b v : Bool) (m : Outcome A) (a : A)
    → ((check b bad_frame >> check v bad_frame) >> m) ≡ returned a
    → (b ≡ true) × (v ≡ true) × (m ≡ returned a)
check-returned true true m a h = (refl, refl, h)
check-returned true false m a h = failed_is_not h
check-returned false v m a h = failed_is_not h

equal_of : (a b : ℕ) → (a == b) ≡ true → a ≡ b
equal_of a b h = ground arith

magic_bytes :
    (a : Four)
    → is_magic a ≡ true
    → (a.first ≡ 0x46) × (a.second ≡ 0x52) × (a.third ≡ 0x4d) × (a.fourth ≡ 0x31)
magic_bytes a h = (ground arith, ground arith, ground arith, ground arith)

AllBytes : Four → Type 0
AllBytes a = (a.first < 256) × (a.second < 256) × (a.third < 256) × (a.fourth < 256)

layout : ℕ → List ℕ → List ℕ → List ℕ → List ℕ → List ℕ
layout flags t r n more = 0x46 ∷ 0x52 ∷ 0x4d ∷ 0x31 ∷ 1 ∷ flags ∷ (t ++ (r ++ (n ++ more)))

read_behind_exact :
    (a b c d : Four) (rest : List ℕ) (f : Frame) (left : List ℕ)
    → AllBytes b
    → AllBytes c
    → AllBytes d
    → read_behind (bytes_of a b c d, rest) ≡ returned (f, left)
    → (bytes_of a b c d ++ rest ≡ wire b.second f ++ left) × Fits f
unfolding value16 value32 layout AllBytes
read_behind_exact a b c d rest f left hb hc hd h =
    let (magic, version, fields) = check-returned _ _ _ _ (rw (header_check a b c d rest) at h) in
    let (m0, m1, m2, m3) = magic_bytes a magic in
    let v = equal_of b.first 1 version in
    let (et, er, whole, size, small) = read_fields_exact _ _ _ rest f left fields in
    let t : be16 f.msg_type ≡ b.third ∷ b.fourth ∷ [] =
      ap be16 et ∙ be16-value16 b.third b.fourth hb.2 hb.3 in
    let r : be32 f.req_id ≡ c.first ∷ c.second ∷ c.third ∷ c.fourth ∷ [] =
      ap be32 er ∙ be32-value32 c.first c.second c.third c.fourth hc.0 hc.1 hc.2 hc.3 in
    let n : be32 (length f.payload) ≡ d.first ∷ d.second ∷ d.third ∷ d.fourth ∷ [] =
      ap be32 size ∙ be32-value32 d.first d.second d.third d.fourth hd.0 hd.1 hd.2 hd.3 in
    (
      rw m0 (
          rw m1 (
            rw m2 (
              rw m3 (
                rw v (
                  rw whole (
                    sym (
                      ap
                        (λ l.
                          layout b.second l (be32 f.req_id) (be32 (length f.payload))
                            (f.payload ++ left))
                        t
                      ∙ (ap
                            (λ l.
                              layout b.second (b.third ∷ b.fourth ∷ []) l (be32 (length f.payload))
                                (f.payload ++ left))
                            r
                          ∙ ap
                              (λ l.
                                layout b.second (b.third ∷ b.fourth ∷ [])
                                  (c.first ∷ c.second ∷ c.third ∷ c.fourth ∷ []) l
                                  (f.payload ++ left))
                              n)))))))),
      record {
        type_fits = omega (arith, et, hb.2, hb.3);
        id_fits = omega (arith, er, hc.0, hc.1, hc.2, hc.3);
        payload_fits = omega (arith, size, small);
      },
    )

All-prefix : (P : ℕ → Type 0) (xs ys : List ℕ) → All P (xs ++ ys) → All P xs
All-prefix P [] ys h = tt
All-prefix P (x ∷ xs) ys h = (h.0, All-prefix P xs ys h.1)

bytes_of-AllBytes :
    (a b c d : Four) → All IsByte (bytes_of a b c d) → AllBytes b × AllBytes c × AllBytes d
unfolding AllBytes
bytes_of-AllBytes a b c d h =
    let u = h.1.1.1.1 in
    let v = u.1.1.1.1 in
    let w = v.1.1.1.1 in
    (
      (u.0, u.1.0, u.1.1.0, u.1.1.1.0),
      (v.0, v.1.0, v.1.1.0, v.1.1.1.0),
      (w.0, w.1.0, w.1.1.0, w.1.1.1.0),
    )

read_frame_sound :
    (input : List ℕ) (f : Frame) (left : List ℕ)
    → All IsByte input
    → read_frame input ≡ returned (f, left)
    → (flags : ℕ) × (input ≡ wire flags f ++ left) × Fits f
unfolding read_frame
read_frame_sound input f left hb h = elim (Outcome-cases (read_full 16 input)) [
  | inl ((hdr, rest), e) ↦
      let (whole, size) = read_full_exact 16 input hdr rest e in
      let (a, b, c, d, is_hdr) = sixteen hdr size in
      let input_is : input ≡ bytes_of a b c d ++ rest = whole ∙ ap (λ l. l ++ rest) is_hdr in
      let (bb, bc, bd) =
        bytes_of-AllBytes a b c d
          (All-prefix IsByte (bytes_of a b c d) rest (subst (All IsByte) input_is hb)) in
      let behind : read_behind (hdr, rest) ≡ returned (f, left) = rw e at h in
      let behind' : read_behind (bytes_of a b c d, rest) ≡ returned (f, left) =
        subst (λ l. read_behind (l, rest) ≡ returned (f, left)) is_hdr behind in
      let (eq, fits) = read_behind_exact a b c d rest f left bb bc bd behind' in
      (b.second, input_is ∙ eq, fits)
  | inr (inl (x, e)) ↦ failed_is_not (rw e at h)
  | inr (inr e) ↦ absurd cc
]

-- On any bytes, `readFrame` returns a frame and leaves some bytes exactly when the input is the
-- documented layout of that frame with some flags byte, followed by these bytes, and the fields
-- and the payload keep to their limits.
pub read_frame_iff :
    (input : List ℕ) (f : Frame) (left : List ℕ)
    → All IsByte input
    → (read_frame input ≡ returned (f, left))
      ↔ ((flags : ℕ) × (input ≡ wire flags f ++ left) × Fits f)
read_frame_iff input f left hb = (
  read_frame_sound input f left hb,
  λ (flags, e, fits). ap read_frame e ∙ read_frame-wire flags f left fits,
)
