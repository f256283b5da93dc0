-- ===== src/Auth/Spent/Found.antt =====
-- A row found by a hash that is unique, and what is left open once this row is shut.
use firmflow.Base.{
  ℕ, String, Bool, true, false, not, ◌&&◌, ◌≡◌, refl, ap, ◌∙◌, List, [], ◌∷◌, any, count, str_eq,
  find?, ◌==◌, ◌≤◌, Bool-cases, inl, inr, arith, some, subst,
}
use firmflow.Model.{update_where}
use firmflow.Auth.Spent.{Spent, Unique, any-update}

shut_head :
    (a b c o : Bool)
    → (a && not b) ≡ false
    → (b ≡ true → o ≡ true → c ≡ true)
    → c ≡ false
    → (a && o) ≡ false
shut_head false b c o e h f = refl
shut_head true b c false e h f = refl
shut_head true true c true e h f = absurd (cc (h refl refl, f))
shut_head true false c true e h f = absurd (cc e)

module _ {A : Type 0} (hash_of : A → String) (is_open : A → Bool) (id_of : A → ℕ) where
  abbrev pub not_id : ℕ → A → Bool
  not_id id x = not (id_of x == id)

  -- The rows with a hash all have this id.
  abbrev pub Only : String → ℕ → List A → Type 0
  Only h id = Spent hash_of (not_id id) h

  abbrev elsewhere : String → ℕ → A → Bool
  elsewhere h id x = str_eq (hash_of x) h && not (id_of x == id)

  module _ (h : String) where
    abbrev has : A → Bool
    has x = str_eq (hash_of x) h

    no_other : (id : ℕ) (xs : List A) → count has xs ≤ 0 → any (elsewhere h id) xs ≡ false
    no_other id [] u = refl
    no_other id (x ∷ xs) u = elim (Bool-cases (has x)) [
      | inl e ↦ absurd (ground arith)
      | inr e ↦ let rest = no_other id xs (ground arith) in rw (e, rest) refl
    ]

    none_there : (xs : List A) → count has xs ≤ 0 → any has xs ≡ true → ⊥
    none_there [] u e = cc e
    none_there (x ∷ xs) u e = elim (Bool-cases (has x)) [
      | inl f ↦ ground arith
      | inr f ↦ none_there xs (ground arith) (ground arith)
    ]

    module _ (r : A → Bool) (implies : (x : A) → r x ≡ true → has x ≡ true) where
      found_there : (c : A) (xs : List A) → find? r xs ≡ some c → any has xs ≡ true
      found_there c [] e = absurd (cc e)
      found_there c (x ∷ xs) e = elim (Bool-cases (r x)) [
        | inl f ↦ rw (implies x f) refl
        | inr f ↦ let rest = found_there c xs (rw f at e) in ground arith
      ]

      found_only :
          (c : A) (xs : List A)
          → find? r xs ≡ some c
          → count has xs ≤ 1
          → any (elsewhere h (id_of c)) xs ≡ false
      found_only c [] e u = refl
      found_only c (x ∷ xs) e u = elim (Bool-cases (r x)) [
        | inl f ↦
            let same : x ≡ c = ground arith in
            let first = implies x f in
            subst (λ d. any (elsewhere h (id_of d)) (x ∷ xs) ≡ false) same
              (rw (no_other (id_of x) xs (ground arith)) (ground arith))
        | inr f ↦
            let rest : find? r xs ≡ some c = rw f at e in
            elim (Bool-cases (has x)) [
              | inl g ↦ absurd (none_there xs (ground arith) (found_there c xs rest))
              | inr g ↦ let tail = found_only c xs rest (ground arith) in rw (g, tail) refl
            ]
      ]

      -- The row that a search finds is the only one.
      pub found-Only :
          (c : A) (xs : List A)
          → find? r xs ≡ some c
          → Unique hash_of is_open h xs
          → Only h (id_of c) xs
      found-Only c xs e u = record { there = found_there c xs e; none_open = found_only c xs e u }

    module _ (id : ℕ) (p : A → Bool) (f : A → A)
        (hit : (x : A) → (id_of x == id) ≡ true → is_open x ≡ true → p x ≡ true)
        (same : (x : A) → hash_of (f x) ≡ hash_of x) (shut : (x : A) → is_open (f x) ≡ false) where
      shut_only :
          (xs : List A)
          → any (elsewhere h id) xs ≡ false
          → any (λ x. str_eq (hash_of x) h && is_open x) (update_where p f xs) ≡ false
      unfolding update_where
      shut_only [] e = refl
      shut_only (x ∷ xs) e =
          let rest = shut_only xs (ground arith) in
          elim (Bool-cases (p x)) [
            | inl g ↦ rw (g, rest, shut x) (ground arith)
            | inr g ↦
                rw
                  (
                    g,
                    rest,
                    shut_head (has x) (id_of x == id) (p x) (is_open x) (ground arith) (hit x) g,
                  )
                  refl
          ]

      pub shut-Spent : (xs : List A) → Only h id xs → Spent hash_of is_open h (update_where p f xs)
      shut-Spent xs o = record {
        there = any-update p has f (λ x e. ap (λ t. str_eq t h) (same x)) xs ∙ o.there;
        none_open = shut_only xs o.none_open;
      }
