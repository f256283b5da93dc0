-- ===== src/Auth/Spent.antt =====
-- Rows that are found by a hash: one of them at most, and none that is open once it was used.
pub mod Found
use firmflow.Base.{
  ℕ, suc, zero, String, Bool, true, false, ◌≡◌, refl, sym, ap, subst, ◌∙◌, List, [], ◌∷◌, ◌++◌,
  is_none, any, count, str_eq, str_eq_iff, ◌&&◌, ◌||◌, Bool-cases, inl, inr, arith, ◌≤◌, ◌+◌,
}
use firmflow.Model.{AuthSession, SingleUseToken, Tables, update_where, insert_row}

module _ {A : Type 0} where
  -- What an update does to a test that it does not change.
  pub any-update :
      (p q : A → Bool) (u : A → A)
      → ((x : A) → p x ≡ true → q (u x) ≡ q x)
      → (xs : List A) → any q (update_where p u xs) ≡ any q xs
  unfolding update_where
  any-update p q u h [] = refl
  any-update p q u h (x ∷ xs) =
      let rest = any-update p q u h xs in
      elim (Bool-cases (p x)) [ inl e ↦ rw (e, rest, h x e) refl | inr e ↦ rw (e, rest) refl ]

  count-update :
      (p q : A → Bool) (u : A → A)
      → ((x : A) → p x ≡ true → q (u x) ≡ q x)
      → (xs : List A) → count q (update_where p u xs) ≡ count q xs
  unfolding update_where
  count-update p q u h [] = refl
  count-update p q u h (x ∷ xs) =
      let rest = count-update p q u h xs in
      elim (Bool-cases (p x)) [ inl e ↦ rw (e, rest, h x e) refl | inr e ↦ rw (e, rest) refl ]

  -- A test that an update does not make true.
  any-update_false :
      (p q : A → Bool) (u : A → A)
      → ((x : A) → p x ≡ true → q x ≡ false → q (u x) ≡ false)
      → (xs : List A) → any q xs ≡ false
      → any q (update_where p u xs) ≡ false
  unfolding update_where
  any-update_false p q u h [] e = refl
  any-update_false p q u h (x ∷ xs) e =
      let rest = any-update_false p q u h xs (ground arith) in
      elim (Bool-cases (p x)) [
        | inl f ↦ rw (f, rest, h x f (ground arith)) refl
        | inr f ↦ rw (f, rest) (ground arith)
      ]

  any-insert : (q : A → Bool) (x : A) (xs : List A) → any q (insert_row x xs) ≡ (any q xs || q x)
  any-insert q x [] = ground arith
  any-insert q x (y ∷ xs) = let rest = any-insert q x xs in ground arith

  count-insert_false :
      (q : A → Bool) (x : A) (xs : List A) → q x ≡ false → count q (insert_row x xs) ≡ count q xs
  count-insert_false q x [] e = ground arith
  count-insert_false q x (y ∷ xs) e = let rest = count-insert_false q x xs e in ground arith

  count-insert_first :
      (q : A → Bool) (x : A) (xs : List A) → any q xs ≡ false → count q (insert_row x xs) ≤ 1
  count-insert_first q x [] e = ground arith
  count-insert_first q x (y ∷ xs) e =
      let rest = count-insert_first q x xs (ground arith) in ground arith

still_shut : (a b c : Bool) → (a && b) ≡ false → (b ≡ false → c ≡ false) → (a && c) ≡ false
still_shut false b c e h = refl
still_shut true b c e h = h e

-- Rows with a hash, of which some are still open.
module _ {A : Type 0} (hash_of : A → String) (is_open : A → Bool) where
  abbrev pub with_hash : String → A → Bool
  with_hash h x = str_eq (hash_of x) h

  abbrev pub open_with : String → A → Bool
  open_with h x = str_eq (hash_of x) h && is_open x

  pub record Spent (h : String) (xs : List A) : Type 0 where
    pub there : any (with_hash h) xs ≡ true
    pub none_open : any (open_with h) xs ≡ false

  pub Spent-update :
      (h : String) (p : A → Bool) (u : A → A)
      → ((x : A) → p x ≡ true → hash_of (u x) ≡ hash_of x)
      → ((x : A) → p x ≡ true → is_open x ≡ false → is_open (u x) ≡ false)
      → (xs : List A) → Spent h xs
      → Spent h (update_where p u xs)
  Spent-update h p u same shut xs s = record {
    there = any-update p (with_hash h) u (λ x e. ap (λ t. str_eq t h) (same x e)) xs ∙ s.there;
    none_open =
        any-update_false p (open_with h) u
          (λ x e f.
            rw (same x e)
              (still_shut (str_eq (hash_of x) h) (is_open x) (is_open (u x)) f (shut x e)))
          xs s.none_open;
  }

  -- The row that a unique index lets in has another hash than those that are there.
  other_hash :
      (h : String) (x : A) (xs : List A)
      → any (with_hash (hash_of x)) xs ≡ false
      → str_eq (hash_of x) h ≡ true
      → any (with_hash h) xs ≡ false
  other_hash h x xs e f =
      subst (λ g. any (with_hash g) xs ≡ false) ((str_eq_iff (hash_of x) h).0 f) e

  pub Spent-insert :
      (h : String) (x : A) (xs : List A)
      → any (with_hash (hash_of x)) xs ≡ false
      → Spent h xs
      → Spent h (insert_row x xs)
  Spent-insert h x xs e s = elim (Bool-cases (str_eq (hash_of x) h)) [
    | inl f ↦ absurd (cc (other_hash h x xs e f, s.there))
    | inr f ↦ record {
      there = any-insert (with_hash h) x xs ∙ rw (s.there) refl;
      none_open = any-insert (open_with h) x xs ∙ rw (s.none_open, f) refl;
    }
  ]

  -- At most one row has the hash.
  abbrev pub Unique : String → List A → Type 0
  Unique h xs = count (with_hash h) xs ≤ 1

  pub Unique-update :
      (h : String) (p : A → Bool) (u : A → A)
      → ((x : A) → p x ≡ true → hash_of (u x) ≡ hash_of x)
      → (xs : List A) → Unique h xs
      → Unique h (update_where p u xs)
  Unique-update h p u same xs s =
      rw (count-update p (with_hash h) u (λ x e. ap (λ t. str_eq t h) (same x e)) xs) s

  pub Unique-insert :
      (h : String) (x : A) (xs : List A)
      → any (with_hash (hash_of x)) xs ≡ false
      → Unique h xs
      → Unique h (insert_row x xs)
  Unique-insert h x xs e s = elim (Bool-cases (str_eq (hash_of x) h)) [
    | inl f ↦ count-insert_first (with_hash h) x xs (other_hash h x xs e f)
    | inr f ↦ rw (count-insert_false (with_hash h) x xs f) s
  ]
