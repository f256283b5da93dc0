-- ===== src/Base/Text.antt =====
-- Go strings as lists of bytes: `strings.TrimSpace` of the standard library.
use Prim.Native.Nat.{ℕ}
use mathlib.Core.Bool.{Bool, true, false, ◌&&◌, ◌||◌}
use mathlib.Core.List.{List, [], ◌∷◌, reverse}
use firmflow.Base.Tests.{leb, ◌==◌, if◌then◌else◌}

abbrev pub is_empty : List ℕ → Bool
is_empty [] = true
is_empty (b ∷ bs) = false

-- `==` on texts.
abbrev pub same_bytes : List ℕ → List ℕ → Bool
same_bytes [] [] = true
same_bytes (a ∷ as') (b ∷ bs) = (a == b) && same_bytes as' bs
same_bytes _ _ = false

-- Tab, line feed, vertical tab, form feed, carriage return and the blank.
is_ascii_space : ℕ → Bool
is_ascii_space b = (leb 9 b && leb b 13) || b == 32

-- U+0085 and U+00A0.
is_space_2 : ℕ → ℕ → Bool
is_space_2 a b = a == 0xc2 && (b == 0x85 || b == 0xa0)

-- U+1680, U+2000 … U+200A, U+2028, U+2029, U+202F, U+205F and U+3000.
is_space_3 : ℕ → ℕ → ℕ → Bool
is_space_3 a b c =
    (a == 0xe1 && (b == 0x9a && c == 0x80))
    || ((a == 0xe2
          && (b == 0x80 && ((leb 0x80 c && leb c 0x8a) || (c == 0xa8 || (c == 0xa9 || c == 0xaf)))))
        || ((a == 0xe2 && (b == 0x81 && c == 0x9f)) || (a == 0xe3 && (b == 0x80 && c == 0x80))))

-- The bytes of the white space that a text begins with are dropped.
unfoldable pub trim_left : List ℕ → List ℕ
unfolding is_ascii_space is_space_2 is_space_3
trim_left [] = []
trim_left (a ∷ []) = if is_ascii_space a then [] else a ∷ []
trim_left (a ∷ b ∷ []) =
    let one = trim_left (b ∷ []) in
    if is_ascii_space a then one else if is_space_2 a b then [] else a ∷ b ∷ []
trim_left (a ∷ b ∷ c ∷ r) =
    let one = trim_left (b ∷ c ∷ r) in
    let two = trim_left (c ∷ r) in
    let three = trim_left r in
    if is_ascii_space a
    then one
    else if is_space_2 a b
    then two
    else if is_space_3 a b c
    then three
    else a ∷ b ∷ c ∷ r

-- The same from the end: a character's bytes are met in the reverse order.
trim_left_reversed : List ℕ → List ℕ
unfolding is_ascii_space is_space_2 is_space_3
trim_left_reversed [] = []
trim_left_reversed (a ∷ []) = if is_ascii_space a then [] else a ∷ []
trim_left_reversed (a ∷ b ∷ []) =
    let one = trim_left_reversed (b ∷ []) in
    if is_ascii_space a then one else if is_space_2 b a then [] else a ∷ b ∷ []
trim_left_reversed (a ∷ b ∷ c ∷ r) =
    let one = trim_left_reversed (b ∷ c ∷ r) in
    let two = trim_left_reversed (c ∷ r) in
    let three = trim_left_reversed r in
    if is_ascii_space a
    then one
    else if is_space_2 b a
    then two
    else if is_space_3 c b a
    then three
    else a ∷ b ∷ c ∷ r

unfoldable pub trim_space : List ℕ → List ℕ
unfolding trim_left trim_left_reversed
trim_space s = reverse (trim_left_reversed (reverse (trim_left s)))
