-- ===== src/Devotcp/Payload/Fields.antt =====
-- The reads of one text of a payload against the field of the layout that stands there.
use firmflow.Base.{
  ℕ, ◌+◌, ◌*◌, ◌≡◌, ◌≤◌, ◌<◌, refl, ap, sym, ◌∙◌, true, false, not, Option, some, none, List, [],
  ◌∷◌, ◌++◌, leb, ltb, length, take, drop, arith, length-append, inl, inr, Bool-cases,
  take-append-drop, length-take,
}
use firmflow.Devotcp.Outcome.{Outcome, returned, failed, bad_frame, ◌>>=◌, ◌>>◌, check, slice}
use firmflow.Devotcp.Bytes.{uint16}
use firmflow.Devotcp.Payload.Slices.{text_field, slice_behind, long_enough, too_short}

-- A field that must be there.
abbrev pub with_text :
    {A : Type 0} → Option (List ℕ × List ℕ) → (List ℕ → List ℕ → Outcome A) → Outcome A
with_text none k = failed bad_frame
with_text (some (text, rest)) k = k text rest

-- The two bytes of a length at `off`, the test of it and the text behind them.
abbrev pub read_text : {A : Type 0} → List ℕ → ℕ → (ℕ → List ℕ → Outcome A) → Outcome A
read_text p off k = do
  n ← slice p off (off + 2) >>= uint16
  check (not (ltb (length p) (off + 2 + n))) bad_frame
  text ← slice p (off + 2) (off + 2 + n)
  k n text

pub append_assoc : (xs ys zs : List ℕ) → (xs ++ ys) ++ zs ≡ xs ++ (ys ++ zs)
append_assoc [] ys zs = refl
append_assoc (x ∷ xs) ys zs = ap (λ l. x ∷ l) (append_assoc xs ys zs)

module _ {A : Type 0} (pre r : List ℕ) (a b : ℕ) (k : ℕ → List ℕ → Outcome A) where
  read_text_fits :
      a * 256 + b ≤ length r
      → read_text (pre ++ (a ∷ b ∷ r)) (length pre) k ≡ k (a * 256 + b) (take (a * 256 + b) r)
  read_text_fits h =
      let n : ℕ = a * 256 + b in
      let p : List ℕ = pre ++ (a ∷ b ∷ r) in
      let two : slice p (length pre) (length pre + 2) ≡ returned (a ∷ b ∷ []) =
        slice_behind pre (a ∷ b ∷ []) r (length pre) (length pre + 2) refl refl in
      let size : length p ≡ length pre + 2 + length r =
        omega (arith, length-append pre (a ∷ b ∷ r)) in
      let ok' : not (ltb (length p) (length pre + 2 + n)) ≡ true =
        long_enough (length pre + 2 + n) (length p) (omega (arith, size, h)) in
      let parts : p ≡ (pre ++ (a ∷ b ∷ [])) ++ (take n r ++ drop n r) = sym (
        append_assoc pre (a ∷ b ∷ []) (take n r ++ drop n r)
        ∙ ap (λ l. pre ++ (a ∷ b ∷ l)) (take-append-drop n r)) in
      let text : slice p (length pre + 2) (length pre + 2 + n) ≡ returned (take n r) =
        ap (λ l. slice l (length pre + 2) (length pre + 2 + n)) parts
        ∙ slice_behind (pre ++ (a ∷ b ∷ [])) (take n r) (drop n r) (length pre + 2)
            (length pre + 2 + n) (omega (arith, length-append pre (a ∷ b ∷ [])))
            (omega (arith, length-take n r, h)) in
      rw two (rw ok' (rw text refl))

  read_text_short :
      length r < a * 256 + b → read_text (pre ++ (a ∷ b ∷ r)) (length pre) k ≡ failed bad_frame
  read_text_short h =
      let n : ℕ = a * 256 + b in
      let p : List ℕ = pre ++ (a ∷ b ∷ r) in
      let two : slice p (length pre) (length pre + 2) ≡ returned (a ∷ b ∷ []) =
        slice_behind pre (a ∷ b ∷ []) r (length pre) (length pre + 2) refl refl in
      let size : length p ≡ length pre + 2 + length r =
        omega (arith, length-append pre (a ∷ b ∷ r)) in
      let bad : not (ltb (length p) (length pre + 2 + n)) ≡ false =
        too_short (length pre + 2 + n) (length p) (omega (arith, size, h)) in
      rw two (rw bad refl)

-- The reads at `off` are the field of the layout that stands there.
pub read_text_field :
    {A : Type 0} (pre r : List ℕ) (a b : ℕ) (k : ℕ → List ℕ → Outcome A)
    → read_text (pre ++ (a ∷ b ∷ r)) (length pre) k
      ≡ with_text (text_field (a ∷ b ∷ r)) (λ text rest. k (a * 256 + b) text)
read_text_field pre r a b k = elim (Bool-cases (leb (a * 256 + b) (length r))) [
  | inl e ↦ rw e (read_text_fits pre r a b k (ground arith))
  | inr e ↦ rw e (read_text_short pre r a b k (ground arith))
]
