-- ===== src/Base/Grows.antt =====
-- A table that keeps its rows in their places, each changed within a relation, and only gains rows
-- at its end.
use mathlib.Core.Path.{◌≡◌, subst}
use mathlib.Core.Option.{some}
use native.Mathlib.Omega.{arith}
use firmflow.Base.Tests.{Bool-cases}
use firmflow.Base.Lists.{find?}
use mathlib.Core.Bool.{Bool}
use mathlib.Core.Logic.{inl, inr}
use mathlib.Core.List.{List, [], ◌∷◌, ◌++◌}

module _ {A : Type 0} where
  abbrev pub Grows : (A → A → Type 0) → List A → List A → Type 0
  Grows R [] ys = Unit
  Grows R (x ∷ xs) [] = ⊥
  Grows R (x ∷ xs) (y ∷ ys) = R x y × Grows R xs ys

module _ {A : Type 0} (R : A → A → Type 0) (r : (x : A) → R x x) where
  pub Grows-refl : (xs : List A) → Grows R xs xs
  Grows-refl [] = tt
  Grows-refl (x ∷ xs) = (r x, Grows-refl xs)

  pub Grows-append : (xs ys : List A) → Grows R xs (xs ++ ys)
  Grows-append [] ys = tt
  Grows-append (x ∷ xs) ys = (r x, Grows-append xs ys)

module _ {A : Type 0} (R : A → A → Type 0) (t : (x y z : A) → R x y → R y z → R x z) where
  pub Grows-trans : (xs ys zs : List A) → Grows R xs ys → Grows R ys zs → Grows R xs zs
  Grows-trans [] ys zs h k = tt
  Grows-trans (x ∷ xs) [] zs h k = absurd h
  Grows-trans (x ∷ xs) (y ∷ ys) [] h k = absurd k
  Grows-trans (x ∷ xs) (y ∷ ys) (z ∷ zs) h k = (t x y z h.0 k.0, Grows-trans xs ys zs h.1 k.1)

-- A search by a test that the relation keeps finds the same row, moved within the relation.
module _ {A : Type 0} (R : A → A → Type 0) (p : A → Bool)
    (same : (x y : A) → R x y → p y ≡ p x) where
  pub Grows-find? :
      (xs ys : List A)
      → Grows R xs ys
      → (x : A) → find? p xs ≡ some x
      → (y : A) × (find? p ys ≡ some y) × R x y
  Grows-find? [] ys g x h = cc
  Grows-find? (a ∷ xs) [] g x h = absurd g
  Grows-find? (a ∷ xs) (b ∷ ys) g x h = elim (Bool-cases (p a)) [
    | inl e ↦
        let hit : a ≡ x = ground arith in (b, rw (same a b g.0) (rw e), subst (λ z. R z b) hit g.0)
    | inr e ↦
        let (y, f, r) = Grows-find? xs ys g.1 x (ground arith) in (y, rw (same a b g.0) (rw e f), r)
  ]
