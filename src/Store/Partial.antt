-- ===== src/Store/Partial.antt =====
-- What a method that returns a value has done: of one that fails, nothing is said.
use firmflow.Base.{
  some, Bool, true, false, Bool-cases, inl, inr, if◌then◌else◌, Option, ◌≡◌, refl, subst, ◌∙◌,
}
use firmflow.Store.Monad.{
  Error, Result, ok, err, World, M, fail, catch, ignore, guard, new_uuid, query, exec, exec_unique,
  commit, transaction, one, first,
}
use firmflow.Store.Rules.{keeps, Keeps, run-Keeps}
use firmflow.Store.Triple.{
  Ends, by_value, by_error, Triple, triple, run-Triple, fail-Triple, query-Triple, exec-Triple,
  bind-Triple, catch-Triple, one-Triple, guard-Triple,
}

abbrev pub Returns : {S A : Type 0} → (S → Type 0) → M S A → (A → S → Type 0) → Type 0
Returns P m Q = Triple P m Q (λ s. Unit {0})

module _ {S A : Type 0} {Q : A → S → Type 0} where
  value_of : {r : Result A} {s : S} → Ends Q (λ t. Unit {0}) r s → (a : A) → r ≡ ok a → Q a s
  value_of {s = s} (by_value b e q) a f = let same : b ≡ a = cc in subst (λ c. Q c s) same q
  value_of (by_error x e u) a f = absurd (cc (e, f))

module _ {S A : Type 0} {P : S → Type 0} {Q : A → S → Type 0} where
  -- A run that returned.
  pub run-Returns :
      {m : M S A}
      → Returns P m Q
      → (w : World S) → P w.db
      → (a : A) → (m w).0 ≡ ok a
      → Q a (m w).1.db
  run-Returns h w p = value_of (run-Triple h w p)

  pub fail-Returns : (e : Error) → Returns P (fail {A = A} e) Q
  fail-Returns e = fail-Triple e (λ s p. tt)

  pub query-Returns : (q : S → A) → ((s : S) → P s → Q (q s) s) → Returns P (query q) Q
  query-Returns q h = query-Triple q h (λ s p. tt)

  pub exec-Returns : (f : S → S × A) → ((s : S) → P s → Q (f s).1 (f s).0) → Returns P (exec f) Q
  exec-Returns f h = exec-Triple f h (λ s p. tt)

  exec_unique-Ends :
      (clash : S → Bool) (f : S → S × A)
      → ((s : S) → P s → clash s ≡ false → Q (f s).1 (f s).0)
      → (w : World S) → P w.db
      → Ends Q (λ s. Unit {0}) (exec_unique clash f w).0 (exec_unique clash f w).1.db
  unfolding exec_unique
  exec_unique-Ends clash f h w p = elim (Bool-cases (w.env.fails w.tick)) [
    | inl e ↦ rw e (by_error Error.db_failure refl tt)
    | inr e ↦ elim (Bool-cases (clash w.db)) [
      | inl k ↦ rw e (rw k (by_error Error.duplicate_key refl tt))
      | inr k ↦ rw e (rw k (by_value (f w.db).1 refl (h w.db p k)))
    ]
  ]

  -- The row is written when the index has no such row yet.
  pub exec_unique-Returns :
      (clash : S → Bool) (f : S → S × A)
      → ((s : S) → P s → clash s ≡ false → Q (f s).1 (f s).0)
      → Returns P (exec_unique clash f) Q
  exec_unique-Returns clash f h = triple (exec_unique-Ends clash f h)

  pub if-Returns :
      (b : Bool) (m n : M S A)
      → (b ≡ true → Returns P m Q)
      → (b ≡ false → Returns P n Q)
      → Returns P (if b then m else n) Q
  if-Returns true m n h k = h refl
  if-Returns false m n h k = k refl

  -- A handler that fails with an error of its own.
  pub catch-Returns :
      (m : M S A) (h : Error → Error) → Returns P m Q → Returns P (catch m (λ e. fail (h e))) Q
  catch-Returns m h k = catch-Triple m _ k (λ e. fail-Triple (h e) (λ s p. tt))

  pub one-Returns :
      (o : Option A) → ((a : A) → o ≡ some a → (s : S) → P s → Q a s) → Returns P (one o) Q
  one-Returns o h = one-Triple o h (λ s p. tt)

module _ {S A : Type 0} {Q : A → S → Type 0} where
  commit-Ends :
      (before : S) (r : Result A) (w : World S)
      → Ends Q (λ s. Unit {0}) r w.db
      → Ends Q (λ s. Unit {0}) (commit before r w).0 (commit before r w).1.db
  commit-Ends before r w (by_value a e q) = elim (Bool-cases (w.env.fails w.tick)) [
    | inl f ↦ rw e (rw f (by_error Error.db_failure refl tt))
    | inr f ↦ rw e (rw f (by_value a refl q))
  ]
  commit-Ends before r w (by_error x e u) = rw e (by_error x refl tt)

  pub transaction-Returns :
      {P : S → Type 0} (m : M S A) → Returns P m Q → Returns P (transaction m) Q
  unfolding transaction
  transaction-Returns m h = triple λ w p. commit-Ends w.db (m w).0 (m w).1 (run-Triple h w p)

module _ {S : Type 0} {P : S → Type 0} where
  pub guard-Returns : (b : Bool) (e : Error) → Returns P (guard b e) (λ x s. P s × (b ≡ true))
  guard-Returns b e = guard-Triple b e (λ s p. tt)

  pub new_uuid-Returns : Returns P new_uuid (λ id. P)
  unfolding new_uuid
  new_uuid-Returns = triple λ w p. by_value (w.env.uuid_new w.tick) refl p

  pub first-Returns :
      {A : Type 0} (q : S → Option A) → Returns P (first q) (λ a s. P s × (q s ≡ some a))
  first-Returns q =
      bind-Triple {Q = λ o s. P s × (q s ≡ o)} (query q) one (query-Returns q (λ s p. (p, refl)))
        (λ o. one-Returns o (λ a f s p. (p.0, p.1 ∙ f)))

module _ {S A : Type 0} {R : S → S → Type 0} (P : S → Type 0)
    (keep : (s t : S) → R s t → P s → P t) where
  Ends-any : (r : Result A) (s : S) → P s → Ends (λ a. P) (λ t. Unit {0}) r s
  Ends-any (ok a) s h = by_value a refl h
  Ends-any (err e) s h = by_error e refl tt

  -- What a relation kept by the method preserves.
  pub Keeps-Returns : (m : M S A) → Keeps R m → Returns P m (λ a. P)
  Keeps-Returns m h =
      triple λ w p. Ends-any (m w).0 (m w).1.db (keep w.db (m w).1.db (run-Keeps h w) p)

  pub ignore-Returns : (m : M S A) → Keeps R m → Returns P (ignore m) (λ a. P)
  ignore-Returns m h = triple λ w p. by_value tt refl (keep w.db (m w).1.db (run-Keeps h w) p)

-- What does not speak of the tables holds on.
pub always-Returns : {S A : Type 0} {F : Type 0} (m : M S A) → Returns (λ s. F) m (λ a s. F)
always-Returns {F = F} m =
    Keeps-Returns {R = λ s t. Unit {0}} (λ s. F) (λ s t r f. f) m (keeps λ w. tt)

-- A stronger start.
pub before-Returns :
    {S A : Type 0} {P R : S → Type 0} {Q : A → S → Type 0} {m : M S A}
    → ((s : S) → P s → R s)
    → Returns R m Q
    → Returns P m Q
before-Returns h k = triple λ w p. run-Triple k w (h w.db p)
