-- ===== src/Devotcp/Frame/Fields.antt =====
-- What the reads of `readFrame` say of the bytes they come from.
use firmflow.Base.{
  ℕ, ◌+◌, ◌*◌, ◌/◌, ◌%◌, ◌≤◌, ◌<◌, ◌≡◌, ◌⊎◌, refl, ap, sym, subst, ◌∙◌, Bool-cases, inl, inr, List,
  [], ◌∷◌, ◌++◌, ltb, leb, length, take, drop, arith, length-take, take-append-drop,
}
use firmflow.Devotcp.Outcome.{Outcome, WireError, returned, failed, read_full, panicked}
use firmflow.Devotcp.Bytes.{be16, be32}
use firmflow.Devotcp.Frame.{Frame, read_payload, read_fields, max_payload_len}

-- The sixteen bytes of a header, by fours.
pub record Four : Type 0 where
  pub first : ℕ
  pub second : ℕ
  pub third : ℕ
  pub fourth : ℕ

abbrev pub bytes_of : Four → Four → Four → Four → List ℕ
bytes_of a b c d =
    a.first ∷ a.second ∷ a.third ∷ a.fourth ∷ b.first ∷ b.second ∷ b.third ∷ b.fourth ∷ c.first
    ∷ c.second ∷ c.third ∷ c.fourth ∷ d.first ∷ d.second ∷ d.third ∷ d.fourth ∷ []

pub four : ℕ → ℕ → ℕ → ℕ → Four
four a b c d = record { first = a; second = b; third = c; fourth = d }

pub sixteen : (l : List ℕ) → length l ≡ 16 → (a b c d : Four) × (l ≡ bytes_of a b c d)
unfolding four
sixteen (x0 ∷ x1 ∷ x2 ∷ x3 ∷ x4 ∷ x5 ∷ x6 ∷ x7 ∷ x8 ∷ x9 ∷ x10 ∷ x11 ∷ x12 ∷ x13 ∷ x14 ∷ x15 ∷ [])
      h =
    (four x0 x1 x2 x3, four x4 x5 x6 x7, four x8 x9 x10 x11, four x12 x13 x14 x15, refl)
sixteen _ h = absurd (omega (arith, h))

pub returned_injective : {A : Type 0} {a b : A} → returned a ≡ returned b → a ≡ b
returned_injective h = cc

pub failed_is_not : {A B : Type 0} {e : WireError} {a : A} → failed e ≡ returned a → B
failed_is_not h = absurd cc

split_at :
    (n : ℕ) (input p left : List ℕ)
    → ◌≡◌ {A = List ℕ × List ℕ} (take n input, drop n input) (p, left)
    → n ≤ length input
    → (input ≡ p ++ left) × (length p ≡ n)
split_at n input p left h k =
    let is_p : take n input ≡ p = ap (λ (x : List ℕ × List ℕ). x.0) h in
    let is_left : drop n input ≡ left = ap (λ (x : List ℕ × List ℕ). x.1) h in
    let whole : input ≡ take n input ++ drop n input = sym (take-append-drop n input) in
    let size : length (take n input) ≡ n = omega (arith, length-take n input, k) in
    (
      whole ∙ (ap (λ l. l ++ drop n input) is_p ∙ ap (λ l. p ++ l) is_left),
      subst (λ l. length l ≡ n) is_p size,
    )

pub read_full_exact :
    (n : ℕ) (input p left : List ℕ)
    → read_full n input ≡ returned (p, left)
    → (input ≡ p ++ left) × (length p ≡ n)
unfolding read_full
read_full_exact n input p left h = elim (Bool-cases (leb n (length input))) [
  | inl e ↦ split_at n input p left (returned_injective (rw e at h)) (ground arith)
  | inr e ↦ failed_is_not (rw e at h)
]

read_payload_exact :
    (n : ℕ) (input p left : List ℕ)
    → read_payload n input ≡ returned (p, left)
    → (input ≡ p ++ left) × (length p ≡ n) × (n ≤ 8192)
unfolding read_payload
read_payload_exact n input p left h = elim (Bool-cases (ltb max_payload_len n)) [
  | inl e ↦ failed_is_not (rw e at h)
  | inr e ↦
      let small : n ≤ 8192 = ground arith in
      let rest = rw e at h in
      elim (Bool-cases (ltb 0 n)) [
        | inl k ↦
            let (whole, size) = read_full_exact n input p left (rw k at rest) in
            (whole, size, small)
        | inr k ↦
            let pair : ◌≡◌ {A = List ℕ × List ℕ} (take 0 input, drop 0 input) (p, left) =
              returned_injective (rw k at rest) in
            let (whole, size) = split_at 0 input p left pair (omega arith) in
            let none_left : n ≡ 0 = ground arith in (whole, omega (arith, size, none_left), small)
      ]
]

pub Outcome-cases :
    {A : Type 0} (o : Outcome A)
    → ((a : A) × (o ≡ returned a)) ⊎ (((e : WireError) × (o ≡ failed e)) ⊎ (o ≡ panicked))
Outcome-cases (returned a) = inl (a, refl)
Outcome-cases (failed e) = inr (inl (e, refl))
Outcome-cases panicked = inr (inr refl)

pub read_fields_exact :
    (t r n : ℕ) (input : List ℕ) (f : Frame) (left : List ℕ)
    → read_fields t r n input ≡ returned (f, left)
    → (f.msg_type ≡ t)
      × (f.req_id ≡ r)
      × (input ≡ f.payload ++ left)
      × (length f.payload ≡ n)
      × (n ≤ 8192)
unfolding read_fields
read_fields_exact t r n input f left h = elim (Outcome-cases (read_payload n input)) [
  | inl ((p, l), e) ↦
      let pair = returned_injective (rw e at h) in
      let (whole, size, small) = read_payload_exact n input p l e in
      let fp : p ≡ f.payload = ap (λ (x : Frame × List ℕ). x.0.payload) pair in
      let fl : l ≡ left = ap (λ (x : Frame × List ℕ). x.1) pair in
      (
        sym (ap (λ (x : Frame × List ℕ). x.0.msg_type) pair),
        sym (ap (λ (x : Frame × List ℕ). x.0.req_id) pair),
        whole ∙ (ap (λ m. m ++ l) fp ∙ ap (λ m. f.payload ++ m) fl),
        subst (λ m. length m ≡ n) fp size,
        small,
      )
  | inr (inl (x, e)) ↦ failed_is_not (rw e at h)
  | inr (inr e) ↦ absurd cc
]

unfoldable pub value16 : ℕ → ℕ → ℕ
value16 a b = a * 256 + b

unfoldable pub value32 : ℕ → ℕ → ℕ → ℕ → ℕ
value32 a b c d = a * 16777216 + b * 65536 + c * 256 + d

pub be16-value16 : (a b : ℕ) → a < 256 → b < 256 → be16 (value16 a b) ≡ a ∷ b ∷ []
unfolding value16
be16-value16 a b h k =
    let high : (a * 256 + b) / 256 % 256 ≡ a = omega arith in
    let low : (a * 256 + b) % 256 ≡ b = omega arith in rw high (rw low refl)

pub be32-value32 :
    (a b c d : ℕ)
    → a < 256
    → b < 256
    → c < 256
    → d < 256
    → be32 (value32 a b c d) ≡ a ∷ b ∷ c ∷ d ∷ []
unfolding value32
be32-value32 a b c d h k l m =
    let n : ℕ = a * 16777216 + b * 65536 + c * 256 + d in
    let w : n / 16777216 % 256 ≡ a = omega arith in
    let x : n / 65536 % 256 ≡ b = omega arith in
    let y : n / 256 % 256 ≡ c = omega arith in
    let z : n % 256 ≡ d = omega arith in rw w (rw x (rw y (rw z refl)))
