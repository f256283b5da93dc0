-- ===== src/Devotcp/Payload/Decoded.antt =====
-- The decoders against the layout of docs/device-tcp-protocol.md, on every payload.
use firmflow.Base.{
  ℕ, ◌+◌, ◌*◌, ◌≡◌, ◌≤◌, refl, ap, sym, ◌∙◌, true, false, not, if◌then◌else◌, List, [], ◌∷◌, ◌++◌,
  leb, ltb, length, take, drop, arith, length-append, inl, inr, Bool-cases, take-append-drop,
  length-take,
}
use firmflow.Base.Text.{trim_space}
use firmflow.Devotcp.Utf8.{clean}
use firmflow.Devotcp.Outcome.{Outcome, returned}
use firmflow.Devotcp.Payload.{decode_auth_payload, decode_meta, decode_poll_payload}
use firmflow.Devotcp.Payload.Slices.{text_field, long_enough}
use firmflow.Devotcp.Payload.Fields.{with_text, read_text_field, append_assoc}

-- What the layout says of a token.
abbrev pub auth_layout : List ℕ → Outcome (List ℕ)
auth_layout p = with_text (text_field p) (λ raw rest. returned (trim_space (clean raw)))

-- On every payload, `decodeAuthPayload` is the reading of the layout: a length, so many bytes of
-- text cleaned and trimmed, and anything behind them; the rest is refused, and nothing panics.
pub decode_auth-layout : (p : List ℕ) → decode_auth_payload p ≡ auth_layout p
unfolding decode_auth_payload
decode_auth-layout [] = refl
decode_auth-layout (a ∷ []) = refl
decode_auth-layout (a ∷ b ∷ r) =
    let long : not (ltb (length (a ∷ b ∷ r)) 2) ≡ true =
      long_enough 2 (length (a ∷ b ∷ r)) (omega arith) in
    rw long (read_text_field [] r a b (λ n raw. returned (trim_space (clean raw))))

abbrev meta_layout : List ℕ → List ℕ → Outcome (List ℕ × List ℕ)
meta_layout cur rest =
    if ltb (length rest) 2
    then returned (trim_space cur, [])
    else with_text (text_field rest)
        (λ meta more. returned (trim_space (clean cur), trim_space (clean meta)))

-- What the layout says of a poll: a version, then metadata that may be missing.
abbrev pub poll_layout : List ℕ → Outcome (List ℕ × List ℕ)
poll_layout p = with_text (text_field p) meta_layout

-- The test `off+2 > len(p)` asks whether less than two bytes are left.
pub left_of :
    (pre rest : List ℕ) → ltb (length (pre ++ rest)) (length pre + 2) ≡ ltb (length rest) 2
left_of pre rest = ground (arith, length-append pre rest)

decode_meta-layout :
    (pre rest cur : List ℕ) → decode_meta (pre ++ rest) cur (length pre) ≡ meta_layout cur rest
unfolding decode_meta
decode_meta-layout pre [] cur = rw (left_of pre []) refl
decode_meta-layout pre (x ∷ []) cur = rw (left_of pre (x ∷ [])) refl
decode_meta-layout pre (x ∷ y ∷ r) cur =
    let long : ltb (length (x ∷ y ∷ r)) 2 ≡ false = ground arith in
    rw (left_of pre (x ∷ y ∷ r)) (
      rw long (
        read_text_field pre r x y
          (λ n meta. returned (trim_space (clean cur), trim_space (clean meta)))))

-- A continuation that goes on behind the text reads on in what the field leaves.
pub behind_text :
    {A : Type 0} (pre r : List ℕ) (a b : ℕ) (k : ℕ → List ℕ → Outcome A)
    (l : List ℕ → List ℕ → Outcome A)
    → ((text rest : List ℕ)
        → length text ≡ a * 256 + b
        → pre ++ (a ∷ b ∷ r) ≡ (pre ++ (a ∷ b ∷ text)) ++ rest
        → k (a * 256 + b) text ≡ l text rest)
    → with_text (text_field (a ∷ b ∷ r)) (λ text rest. k (a * 256 + b) text)
      ≡ with_text (text_field (a ∷ b ∷ r)) l
behind_text pre r a b k l h = elim (Bool-cases (leb (a * 256 + b) (length r))) [
  | inl e ↦
      let n : ℕ = a * 256 + b in
      let fits : n ≤ length r = ground arith in
      rw e (
        h (take n r) (drop n r) (omega (arith, length-take n r, fits)) (
          ap (λ m. pre ++ (a ∷ b ∷ m)) (sym (take-append-drop n r))
          ∙ sym (append_assoc pre (a ∷ b ∷ take n r) (drop n r))))
  | inr e ↦ rw e refl
]

-- On every payload, `decodePollPayload` is the reading of the layout: a version, then metadata,
-- which is absent when less than two bytes are left; the rest is refused, and nothing panics.
-- Without metadata the version is trimmed and not cleaned, with metadata both are done.
pub decode_poll-layout : (p : List ℕ) → decode_poll_payload p ≡ poll_layout p
unfolding decode_poll_payload
decode_poll-layout [] = refl
decode_poll-layout (a ∷ []) = refl
decode_poll-layout (a ∷ b ∷ r) =
    let p : List ℕ = a ∷ b ∷ r in
    let long : not (ltb (length p) 2) ≡ true = long_enough 2 (length p) (omega arith) in
    rw long (
      read_text_field [] r a b (λ n cur. decode_meta p cur (2 + n))
      ∙ behind_text [] r a b (λ n cur. decode_meta p cur (2 + n)) meta_layout
          (λ cur rest size whole.
            ap (λ l. decode_meta l cur (2 + (a * 256 + b))) whole
            ∙ (ap (decode_meta ((a ∷ b ∷ cur) ++ rest) cur) (omega (arith, size))
                ∙ decode_meta-layout (a ∷ b ∷ cur) rest cur)))
