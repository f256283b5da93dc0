-- ===== src/Devotcp/Utf8.antt =====
-- `strings.ToValidUTF8(s, "")`: the bytes that are part of a character of UTF-8 are kept.
use firmflow.Base.{
  ℕ, zero, suc, Bool, false, ◌&&◌, if◌then◌else◌, List, [], ◌∷◌, ltb, leb, ◌≤◌, length, ◌==◌, ◌≡◌,
  refl, Bool-cases, inl, inr, arith,
}

in_range : ℕ → ℕ → ℕ → Bool
in_range low high b = leb low b && leb b high

follows : ℕ → Bool
unfolding in_range
follows = in_range 0x80 0xbf

-- The second byte of a character of three bytes: no overlong form, no surrogate.
second_of_3 : ℕ → ℕ → Bool
unfolding in_range follows
second_of_3 a b =
    if a == 0xe0
    then in_range 0xa0 0xbf b
    else if a == 0xed
    then in_range 0x80 0x9f b
    else follows b

-- The second byte of a character of four bytes: no overlong form, no more than U+10FFFF.
second_of_4 : ℕ → ℕ → Bool
unfolding in_range follows
second_of_4 a b =
    if a == 0xf0
    then in_range 0x90 0xbf b
    else if a == 0xf4
    then in_range 0x80 0x8f b
    else follows b

tail_of_2 : List ℕ → Bool
unfolding follows
tail_of_2 (b ∷ r) = follows b
tail_of_2 _ = false

tail_of_3 : ℕ → List ℕ → Bool
unfolding follows second_of_3
tail_of_3 a (b ∷ c ∷ r) = second_of_3 a b && follows c
tail_of_3 a _ = false

tail_of_4 : ℕ → List ℕ → Bool
unfolding follows second_of_4
tail_of_4 a (b ∷ c ∷ d ∷ r) = second_of_4 a b && (follows c && follows d)
tail_of_4 a _ = false

-- The number of bytes of the character that a text begins with, 0 when it begins with none.
rune_size : ℕ → List ℕ → ℕ
unfolding in_range tail_of_2 tail_of_3 tail_of_4
rune_size a r =
    if ltb a 0x80
    then 1
    else if in_range 0xc2 0xdf a && tail_of_2 r
    then 2
    else if in_range 0xe0 0xef a && tail_of_3 a r
    then 3
    else if in_range 0xf0 0xf4 a && tail_of_4 a r
    then 4
    else 0

keep_at : ℕ → ℕ → List ℕ → List ℕ
keep_at zero a kept = kept
keep_at (suc n) a kept = a ∷ kept

pred : ℕ → ℕ
pred zero = zero
pred (suc n) = n

-- At each byte, `left` more bytes of the character before it are kept.
keep_runes : ℕ → List ℕ → List ℕ
unfolding rune_size keep_at pred
keep_runes left [] = []
keep_runes (suc left) (a ∷ r) = a ∷ keep_runes left r
keep_runes zero (a ∷ r) = keep_at (rune_size a r) a (keep_runes (pred (rune_size a r)) r)

unfoldable pub to_valid_utf8 : List ℕ → List ℕ
unfolding keep_runes
to_valid_utf8 s = keep_runes 0 s

-- `utf8.ValidString`.
valid_from : ℕ → List ℕ → Bool
unfolding rune_size pred
valid_from left [] = left == 0
valid_from (suc left) (a ∷ r) = valid_from left r
valid_from zero (a ∷ r) = ltb 0 (rune_size a r) && valid_from (pred (rune_size a r)) r

unfoldable pub valid_string : List ℕ → Bool
unfolding valid_from
valid_string s = valid_from 0 s

-- `if !utf8.ValidString(s) { s = strings.ToValidUTF8(s, "") }`.
unfoldable pub clean : List ℕ → List ℕ
unfolding valid_string to_valid_utf8
clean s = if valid_string s then s else to_valid_utf8 s

cut : to_valid_utf8 (0x61 ∷ 0xc3 ∷ 0xa9 ∷ 0xe2 ∷ 0x82 ∷ []) ≡ 0x61 ∷ 0xc3 ∷ 0xa9 ∷ []
unfolding to_valid_utf8 keep_runes rune_size keep_at pred in_range tail_of_2 tail_of_3 tail_of_4
    second_of_3 second_of_4 follows
cut = refl

length-keep_at :
    (n a : ℕ) (kept : List ℕ) (m : ℕ) → length kept ≤ m → length (keep_at n a kept) ≤ suc m
unfolding keep_at
length-keep_at zero a kept m h = omega (arith, h)
length-keep_at (suc n) a kept m h = omega (arith, h)

length-keep_runes : (left : ℕ) (s : List ℕ) → length (keep_runes left s) ≤ length s
unfolding keep_runes
length-keep_runes left [] = omega arith
length-keep_runes (suc left) (a ∷ r) = omega (arith, length-keep_runes left r)
length-keep_runes zero (a ∷ r) =
    let n : ℕ = pred (rune_size a r) in
    length-keep_at (rune_size a r) a (keep_runes n r) (length r) (length-keep_runes n r)

pub length-clean : (s : List ℕ) → length (clean s) ≤ length s
unfolding clean to_valid_utf8
length-clean s = elim (Bool-cases (valid_string s)) [
  | inl e ↦ rw e (omega arith)
  | inr e ↦ rw e (length-keep_runes 0 s)
]
