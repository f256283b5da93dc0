-- ===== src/Rbac/Owners.antt =====
-- The owners of a project, counted before and after its members change.
use firmflow.Base.{
  true, ◌+◌, ◌≡◌, ◌≤◌, refl, ap, ◌∙◌, Bool, false, ◌&&◌, Bool-cases, inl, inr, some, List, [], ◌∷◌,
  find?, count, arith,
}
use firmflow.Model.{delete_where, update_where}

module _ {A : Type 0} (p r : A → Bool) where
  pub count_delete :
      (xs : List A) → count p (delete_where r xs) + count (λ x. p x && r x) xs ≡ count p xs
  unfolding delete_where
  count_delete [] = omega arith
  count_delete (x ∷ xs) = ground (arith, count_delete xs)

  pub count_both : (xs : List A) → count (λ x. p x && r x) xs ≤ count r xs
  count_both [] = omega arith
  count_both (x ∷ xs) = ground (arith, count_both xs)

  pub count_none : (xs : List A) → count r xs ≡ 0 → count (λ x. p x && r x) xs ≡ 0
  count_none xs h = omega (arith, count_both xs, h)

  -- When the only row that passes is found, and is no owner, no owner passes.
  pub count_found :
      (xs : List A) (x : A)
      → find? r xs ≡ some x
      → count r xs ≤ 1
      → p x ≡ false
      → count (λ y. p y && r y) xs ≡ 0
  count_found [] x h k l = refl
  count_found (y ∷ xs) x h k l = elim (Bool-cases (r y)) [
    | inl e ↦
        let same : y ≡ x = ground arith in
        let no_owner : p y ≡ false = ap p same ∙ l in
        let others : count r xs ≡ 0 = ground arith in rw no_owner (count_none xs others)
    | inr e ↦ ground (arith, count_found xs x)
  ]

module _ {A : Type 0} (p r : A → Bool) (f : A → A) where
  pub count_update :
      (xs : List A) → count p xs ≤ count p (update_where r f xs) + count (λ x. p x && r x) xs
  unfolding update_where
  count_update [] = omega arith
  count_update (x ∷ xs) = ground (arith, count_update xs)

  -- Rows that pass after the update only add to those that passed.
  pub count_update_all :
      ((x : A) → r x ≡ true → p (f x) ≡ true)
      → (xs : List A) → count p xs ≤ count p (update_where r f xs)
  unfolding update_where
  count_update_all h [] = omega arith
  count_update_all h (x ∷ xs) = elim (Bool-cases (r x)) [
    | inl e ↦
        let passes : p (f x) ≡ true = h x e in ground (arith, count_update_all h xs, passes, e)
    | inr e ↦ ground (arith, count_update_all h xs, e)
  ]
