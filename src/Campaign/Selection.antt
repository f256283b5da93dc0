-- ===== src/Campaign/Selection.antt =====
-- internal/domain/campaign/service/selection.go: which devices a percentage rollout takes.
pub mod Stable
use firmflow.Base.{ℕ, ◌+◌, ◌*◌, ◌/◌, Bool, if◌then◌else◌, List, [], ◌∷◌, ltb, leb, length, take}
use firmflow.Base.Int.{ℤ, pos, ltb_ℤ, to_ℕ}

-- `sort.Slice` by the printed UUIDs. Equal printed forms are equal UUIDs, so every sort gives
-- the list that insertion gives.
unfoldable pub insert_sorted : ℕ → List ℕ → List ℕ
insert_sorted x [] = x ∷ []
insert_sorted x (y ∷ ys) = let rest = insert_sorted x ys in if leb x y then x ∷ y ∷ ys else y ∷ rest

unfoldable pub sort_uuids : List ℕ → List ℕ
unfolding insert_sorted
sort_uuids [] = []
sort_uuids (x ∷ xs) = insert_sorted x (sort_uuids xs)

-- `percent` after the two guards; from here on it lies in 1 … 100.
unfoldable pub clamp_percent : ℤ → ℕ
clamp_percent percent =
    let low = (if ltb_ℤ percent (pos 1) then pos 1 else percent) in
    to_ℕ (if ltb_ℤ (pos 100) low then pos 100 else low)

-- How many of `n` devices are taken.
unfoldable pub slice_size : ℕ → ℕ → ℕ
slice_size n percent =
    let k = (n * percent + 99) / 100 in
    let at_least_one = (if ltb k 1 then 1 else k) in if ltb n at_least_one then n else at_least_one

unfoldable pub take_stable_percentage : List ℕ → ℤ → List ℕ
unfolding clamp_percent slice_size
take_stable_percentage [] percent = []
take_stable_percentage (x ∷ xs) percent =
    take (slice_size (length (x ∷ xs)) (clamp_percent percent)) (x ∷ xs)
