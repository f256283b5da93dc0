-- ===== src/Campaign/Selection/Stable.antt =====
-- The slice of a rollout: its size, its growth with the percentage, and its independence of the
-- order in which the database returns the devices.
use mathlib.Core.List.{Perm, Permᴰ}
use mathlib.Core.Logic.{∥∥₁_elim}
use firmflow.Base.{
  ℕ, ◌+◌, ◌*◌, ◌≤◌, ◌<◌, ◌≡◌, refl, sym, ap, ◌∙◌, List, [], ◌∷◌, ◌++◌, length, take, drop, arith,
  length-take, take-append-drop, take-nil, take-take,
}
use firmflow.Base.Int.{ℤ, pos, negsuc}
use firmflow.Campaign.Selection.{
  insert_sorted, sort_uuids, clamp_percent, slice_size, take_stable_percentage,
}

clamp_percent_bounds : (p : ℤ) → (1 ≤ clamp_percent p) × (clamp_percent p ≤ 100)
unfolding clamp_percent
clamp_percent_bounds (pos n) = ground arith
clamp_percent_bounds (negsuc n) = ground arith

mul_mono : (n p q : ℕ) → p ≤ q → n * p ≤ n * q
mul_mono n p q h = grind arith

slice_size_bounds :
    (n p : ℕ)
    → 1 ≤ n
    → 1 ≤ p
    → p ≤ 100
    → (n * p ≤ 100 * slice_size n p)
      × (100 * slice_size n p < n * p + 100)
      × (1 ≤ slice_size n p)
      × (slice_size n p ≤ n)
unfolding slice_size
slice_size_bounds n p hn hp hp' = ground (arith, mul_mono n 1 p hp, mul_mono n p 100 hp')

slice_size_mono : (n p q : ℕ) → p ≤ q → slice_size n p ≤ slice_size n q
unfolding slice_size
slice_size_mono n p q h = ground (arith, mul_mono n p q h)

insert_comm :
    (x y : ℕ) (l : List ℕ)
    → insert_sorted x (insert_sorted y l) ≡ insert_sorted y (insert_sorted x l)
unfolding insert_sorted
insert_comm x y [] = ground arith
insert_comm x y (z ∷ l) = ground (arith, insert_comm x y l)

sort-perm : {xs ys : List ℕ} → Permᴰ xs ys → sort_uuids xs ≡ sort_uuids ys
unfolding sort_uuids
sort-perm Permᴰ.nil = refl
sort-perm (Permᴰ.cons e p) = cc (sort-perm p)
sort-perm (Permᴰ.swap {a = a} {b = b} {l = l} e f) = cc (insert_comm a b (sort_uuids l))
sort-perm (Permᴰ.trans p q) = sort-perm p ∙ sort-perm q

clamp_percent_inside : (p : ℕ) → 1 ≤ p → p ≤ 100 → clamp_percent (pos p) ≡ p
unfolding clamp_percent
clamp_percent_inside p h k = ground arith

take_stable_percentage_lem :
    (ids : List ℕ) (p : ℤ)
    → take_stable_percentage ids p ≡ take (slice_size (length ids) (clamp_percent p)) ids
unfolding take_stable_percentage
take_stable_percentage_lem [] p = sym (take-nil (slice_size 0 (clamp_percent p)))
take_stable_percentage_lem (x ∷ xs) p = refl

List_ℕ-set : IsSet (List ℕ)
List_ℕ-set = hlevel

-- The slice of a rollout does not depend on the order in which the database lists the devices.
pub take_stable_percentage-Perm :
    (xs ys : List ℕ) (p : ℤ)
    → Perm xs ys
    → take_stable_percentage (sort_uuids xs) p ≡ take_stable_percentage (sort_uuids ys) p
take_stable_percentage-Perm xs ys p h =
    ap (λ l. take_stable_percentage l p) (∥∥₁_elim h (List_ℕ-set _ _) sort-perm)

-- For a percentage from 1 to 100 the slice of a non-empty list is the front of it, and its size is
-- the percentage of the size of the list, rounded up.
pub take_stable_percentage_size :
    (ids : List ℕ) (p : ℕ)
    → 1 ≤ length ids
    → 1 ≤ p
    → p ≤ 100
    → let chosen = take_stable_percentage ids (pos p) in
      (chosen ≡ take (length chosen) ids)
      × (length ids * p ≤ 100 * length chosen)
      × (100 * length chosen < length ids * p + 100)
take_stable_percentage_size ids p h hp hp' =
    let k = slice_size (length ids) p in
    let b = slice_size_bounds (length ids) p h hp hp' in
    let size : length (take k ids) ≡ k = omega (arith, length-take k ids, b) in
    rw (take_stable_percentage_lem ids (pos p), clamp_percent_inside p hp hp', size)
      (refl, b.0, b.1)

-- A higher percentage keeps every device of a lower one, at its place, and only adds devices
-- behind them.
pub take_stable_percentage_grows :
    (ids : List ℕ) (p q : ℕ)
    → 1 ≤ p
    → p ≤ q
    → q ≤ 100
    → (more : List ℕ) × (take_stable_percentage ids (pos q)
        ≡ take_stable_percentage ids (pos p) ++ more)
take_stable_percentage_grows ids p q h k l =
    let m = slice_size (length ids) p in
    let n = slice_size (length ids) q in
    let same : take m (take n ids) ≡ take m ids =
      take-take m n ids (slice_size_mono (length ids) p q k) in
    (
      drop m (take n ids),
      rw
          (
            take_stable_percentage_lem ids (pos p),
            take_stable_percentage_lem ids (pos q),
            clamp_percent_inside p h (omega arith),
            clamp_percent_inside q (omega arith) l,
            ← same,
          )
          (sym (take-append-drop m (take n ids))),
    )
