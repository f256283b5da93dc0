-- ===== src/Devotcp/Payload/Slices.antt =====
-- A slice of a payload that is put together from parts, and the text fields of the layout.
use firmflow.Base.{
  ℕ, ◌+◌, ◌-◌, ◌*◌, ◌≡◌, ◌≤◌, ◌<◌, ap, true, false, not, ◌&&◌, if◌then◌else◌, Option, some, none,
  List, [], ◌∷◌, ◌++◌, leb, ltb, length, take, drop, arith, length-append, take-length-append,
  drop-length-append,
}
use firmflow.Devotcp.Outcome.{returned, slice}

-- A length in two bytes, and so many bytes: the text, and what follows it.
abbrev pub text_field : List ℕ → Option (List ℕ × List ℕ)
text_field [] = none
text_field (a ∷ []) = none
text_field (a ∷ b ∷ r) =
    let n : ℕ = a * 256 + b in if leb n (length r) then some (take n r, drop n r) else none

pub slice_behind :
    (pre mid post : List ℕ) (a b : ℕ)
    → a ≡ length pre
    → b ≡ a + length mid
    → slice (pre ++ (mid ++ post)) a b ≡ returned mid
unfolding slice
slice_behind pre mid post a b h k =
    let whole : length (pre ++ (mid ++ post)) ≡ length pre + (length mid + length post) =
      omega (arith, length-append pre (mid ++ post), length-append mid post) in
    let inside : (leb a b && leb b (length (pre ++ (mid ++ post)))) ≡ true =
      ground (arith, whole) in
    let size : b - a ≡ length mid = omega (arith, h, k) in
    rw inside (
      ap returned
        (rw size (rw h (rw (drop-length-append pre (mid ++ post)) (take-length-append mid post)))))

-- `if n > len(p)` passes.
pub long_enough : (n m : ℕ) → n ≤ m → not (ltb m n) ≡ true
long_enough n m h = ground arith

pub too_short : (n m : ℕ) → m < n → not (ltb m n) ≡ false
too_short n m h = ground arith
