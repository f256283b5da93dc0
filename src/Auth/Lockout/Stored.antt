-- ===== src/Auth/Lockout/Stored.antt =====
-- The table holds the counter: `CreateOrIncrementThrottle` of
-- internal/domain/auth/repository/repository.go takes the row of an address one failure further.
use firmflow.Base.{
  find?-sound, suc, leb, ℕ, Bool, true, ◌≡◌, refl, sym, ap, ◌∙◌, List, [], ◌∷◌, Option, none, some,
  find?, arith, Bool-cases, inl, inr, ◌==◌, subst,
}
use firmflow.Base.Text.{same_bytes}
use firmflow.Store.Triple.{with_fact, bind-Triple, now-Triple}
use firmflow.Store.Partial.{
  query-Returns, transaction-Returns, run-Returns, exec-Returns, exec_unique-Returns,
  new_uuid-Returns, Returns,
}
use firmflow.Model.{AuthThrottle, Tables, update_where, insert_row}
use firmflow.Auth.Repository.Throttle.{
  create_or_increment_throttle, starts_over, new_throttle, next_throttle, of_email, save_throttle,
}
use firmflow.Auth.External.{External}
use firmflow.Store.{ok, World}
use firmflow.Auth.Repository.{normalize_email}

-- One more failure of an address, at some time.
pub data FailedOnce (window max_attempts : ℕ) (key : List ℕ)
    : Option AuthThrottle → Option AuthThrottle → Type 0 where
  first_failure :
      (id at : ℕ) → FailedOnce window max_attempts key none (some (new_throttle id at key))
  next_failure :
      (at : ℕ) (r : AuthThrottle)
      → FailedOnce window max_attempts key (some r) (some (next_throttle at window max_attempts r))

same_bytes_refl : (xs : List ℕ) → same_bytes xs xs ≡ true
same_bytes_refl [] = refl
same_bytes_refl (x ∷ xs) = let rest = same_bytes_refl xs in ground arith

find?-insert :
    (q : AuthThrottle → Bool) (x : AuthThrottle) (xs : List AuthThrottle)
    → find? q xs ≡ none
    → q x ≡ true
    → find? q (insert_row x xs) ≡ some x
find?-insert q x [] e h = rw h refl
find?-insert q x (y ∷ xs) e h = elim (Bool-cases (q y)) [
  | inl f ↦ absurd (cc (rw f at e))
  | inr f ↦ rw f (find?-insert q x xs (rw f at e) h)
]

find?-update :
    (q : AuthThrottle → Bool) (r new : AuthThrottle) (xs : List AuthThrottle)
    → find? q xs ≡ some r
    → q new ≡ true
    → find? q (update_where (λ s. s.id == r.id) (λ s. new) xs) ≡ some new
unfolding update_where
find?-update q r new [] e h = absurd (cc e)
find?-update q r new (y ∷ xs) e h = elim (Bool-cases (y.id == r.id)) [
  | inl f ↦ rw (f, h) refl
  | inr f ↦ elim (Bool-cases (q y)) [
    | inl g ↦ let same : y ≡ r = ground arith in absurd (ground (arith, f, ap (λ z. z.id) same))
    | inr g ↦ rw (f, g) (find?-update q r new xs (rw g at e) h)
  ]
]

next_throttle-key :
    (at window max_attempts : ℕ) (r : AuthThrottle)
    → (next_throttle at window max_attempts r).email_key ≡ r.email_key
unfolding next_throttle
next_throttle-key at window max_attempts r =
    elim (Bool-cases (starts_over at window r.first_failed_at)) [
      | inl e ↦ rw e refl
      | inr e ↦ elim (Bool-cases (leb max_attempts (suc r.failed_attempts))) [
        | inl f ↦ rw (e, f) refl
        | inr f ↦ rw (e, f) refl
      ]
    ]

module _ (window max_attempts : ℕ) (key : List ℕ) where
  abbrev row_of : Tables → Option AuthThrottle
  row_of t = find? (of_email key) t.auth_throttles

  save_throttle-FailedOnce :
      (at : ℕ) (o : Option AuthThrottle)
      → Returns
          (λ t. row_of t ≡ o)
          (save_throttle at window max_attempts key o)
          (λ u t. FailedOnce window max_attempts key o (row_of t))
  unfolding save_throttle
  save_throttle-FailedOnce at none = bind-Triple _ _ new_uuid-Returns (λ id.
      bind-Triple _ _ now-Triple (λ created. exec_unique-Returns _ _ (λ t e clash.
        subst (FailedOnce window max_attempts key none)
          (sym (
            find?-insert (of_email key) (new_throttle id created key) t.auth_throttles e
              (same_bytes_refl key)))
          (first_failure id created))))
  save_throttle-FailedOnce at (some r) = exec-Returns _ (λ t e.
      subst (FailedOnce window max_attempts key (some r))
        (sym (
          find?-update (of_email key) r (next_throttle at window max_attempts r) t.auth_throttles e
            (ap (λ k. same_bytes k key) (next_throttle-key at window max_attempts r)
              ∙ find?-sound (of_email key) t.auth_throttles r e)))
        (next_failure at r))

-- A failure that is counted without an error takes the row of the address one failure further: from
-- none to the row of a first failure, and from a row to its successor at some time.
pub increment-FailedOnce :
    (x : External) (email : List ℕ) (window max_attempts : ℕ) (w : World Tables)
    → (create_or_increment_throttle x email window max_attempts w).0 ≡ ok tt
    → FailedOnce window max_attempts
        (normalize_email x email)
        (find? (of_email (normalize_email x email)) w.db.auth_throttles)
        (find?
          (of_email (normalize_email x email))
          (create_or_increment_throttle x email window max_attempts w).1.db.auth_throttles)
unfolding create_or_increment_throttle
increment-FailedOnce x email window max_attempts w e =
    let key = normalize_email x email in
    let o = find? (of_email key) w.db.auth_throttles in
    run-Returns {P = λ t. row_of window max_attempts key t ≡ o}
      (transaction-Returns _ (
        bind-Triple _ _ now-Triple (λ at.
          bind-Triple {Q = λ p t. (row_of window max_attempts key t ≡ o) × (p ≡ o)} _ _
            (query-Returns _ (λ t h. (h, h)))
            (λ p. with_fact (λ same.
              subst
                (λ q.
                  Returns (λ t. row_of window max_attempts key t ≡ o)
                    (save_throttle at window max_attempts key q)
                    (λ u t.
                      FailedOnce window max_attempts key o (row_of window max_attempts key t)))
                (sym same) (save_throttle-FailedOnce window max_attempts key at o))))))
      w refl tt e
