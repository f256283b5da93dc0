-- ===== src/Store/Rules.antt =====
-- What a method does to the tables whatever it returns: a preorder that it keeps.
use firmflow.Base.{
  Bool, true, false, if◌then◌else◌, ℕ, List, ◌≡◌, Bool-cases, inl, inr, Option, none, some, zero,
  suc,
}
use firmflow.Store.Monad.{
  Error, Result, ok, err, World, M, pure, fail, bind_result, ◌>>=◌, catch_result, catch, ignore,
  guard, now, new_uuid, query, exec, exec_unique, equal_fold_of, commit, transaction, one, first,
  some_row, when_not_found, record_not_found,
}

pub record IsPreorder {S : Type 0} (R : S → S → Type 0) : Type 0 where
  pub refl' : (s : S) → R s s
  pub trans' : (s t u : S) → R s t → R t u → R s u

pub data Keeps {S : Type 0} (R : S → S → Type 0) {A : Type 0} (m : M S A) : Type 0 where
  keeps : ((w : World S) → R w.db (m w).1.db) → Keeps R m

module _ {S : Type 0} {R : S → S → Type 0} where
  pub run-Keeps : {A : Type 0} {m : M S A} → Keeps R m → (w : World S) → R w.db (m w).1.db
  run-Keeps (keeps h) = h

module _ {S : Type 0} {R : S → S → Type 0} (p : IsPreorder R) where
  pub pure-Keeps : {A : Type 0} (a : A) → Keeps R (pure a)
  pure-Keeps a = keeps λ w. p.refl' w.db

  pub fail-Keeps : {A : Type 0} (e : Error) → Keeps R (fail {A = A} e)
  fail-Keeps e = keeps λ w. p.refl' w.db

  bind_result-keeps :
      {A B : Type 0} (f : A → M S B)
      → ((a : A) → Keeps R (f a))
      → (r : Result A) (w : World S) → R w.db (bind_result f r w).1.db
  bind_result-keeps f h (ok a) w = run-Keeps (h a) w
  bind_result-keeps f h (err e) w = p.refl' w.db

  pub bind-Keeps :
      {A B : Type 0} (m : M S A) (f : A → M S B)
      → Keeps R m
      → ((a : A) → Keeps R (f a))
      → Keeps R (m >>= f)
  bind-Keeps m f h k =
      keeps λ w. p.trans' _ _ _ (run-Keeps h w) (bind_result-keeps f k (m w).0 (m w).1)

  catch_result-keeps :
      {A : Type 0} (f : Error → M S A)
      → ((e : Error) → Keeps R (f e))
      → (r : Result A) (w : World S) → R w.db (catch_result f r w).1.db
  catch_result-keeps f h (ok a) w = p.refl' w.db
  catch_result-keeps f h (err e) w = run-Keeps (h e) w

  pub catch-Keeps :
      {A : Type 0} (m : M S A) (f : Error → M S A)
      → Keeps R m
      → ((e : Error) → Keeps R (f e))
      → Keeps R (catch m f)
  catch-Keeps m f h k =
      keeps λ w. p.trans' _ _ _ (run-Keeps h w) (catch_result-keeps f k (m w).0 (m w).1)

  pub ignore-Keeps : {A : Type 0} (m : M S A) → Keeps R m → Keeps R (ignore m)
  ignore-Keeps m h = keeps λ w. run-Keeps h w

  pub guard-Keeps : (b : Bool) (e : Error) → Keeps R (guard b e)
  guard-Keeps true e = pure-Keeps tt
  guard-Keeps false e = fail-Keeps e

  pub if-Keeps :
      {A : Type 0} (b : Bool) (m n : M S A) → Keeps R m → Keeps R n → Keeps R (if b then m else n)
  if-Keeps true m n h k = h
  if-Keeps false m n h k = k

  pub now-Keeps : Keeps R now
  unfolding now
  now-Keeps = keeps λ w. p.refl' w.db

  pub new_uuid-Keeps : Keeps R new_uuid
  unfolding new_uuid
  new_uuid-Keeps = keeps λ w. p.refl' w.db

  query-keeps : {A : Type 0} (q : S → A) (w : World S) → R w.db (query q w).1.db
  unfolding query
  query-keeps q w = elim (Bool-cases (w.env.fails w.tick)) [
    | inl e ↦ rw e (p.refl' w.db)
    | inr e ↦ rw e (p.refl' w.db)
  ]

  pub query-Keeps : {A : Type 0} (q : S → A) → Keeps R (query q)
  query-Keeps q = keeps (query-keeps q)

  exec-keeps :
      {A : Type 0} (f : S → S × A)
      → ((s : S) → R s (f s).0)
      → (w : World S) → R w.db (exec f w).1.db
  unfolding exec
  exec-keeps f h w = elim (Bool-cases (w.env.fails w.tick)) [
    | inl e ↦ rw e (p.refl' w.db)
    | inr e ↦ rw e (h w.db)
  ]

  pub exec-Keeps : {A : Type 0} (f : S → S × A) → ((s : S) → R s (f s).0) → Keeps R (exec f)
  exec-Keeps f h = keeps (exec-keeps f h)

  exec_unique-keeps :
      {A : Type 0} (clash : S → Bool) (f : S → S × A)
      → ((s : S) → clash s ≡ false → R s (f s).0)
      → (w : World S) → R w.db (exec_unique clash f w).1.db
  unfolding exec_unique
  exec_unique-keeps clash f h w = elim (Bool-cases (w.env.fails w.tick)) [
    | inl e ↦ rw e (p.refl' w.db)
    | inr e ↦ elim (Bool-cases (clash w.db)) [
      | inl k ↦ rw e (rw k (p.refl' w.db))
      | inr k ↦ rw e (rw k (h w.db k))
    ]
  ]

  -- The row is written when the index has no such row yet.
  pub exec_unique-Keeps_fresh :
      {A : Type 0} (clash : S → Bool) (f : S → S × A)
      → ((s : S) → clash s ≡ false → R s (f s).0)
      → Keeps R (exec_unique clash f)
  exec_unique-Keeps_fresh clash f h = keeps (exec_unique-keeps clash f h)

  pub exec_unique-Keeps :
      {A : Type 0} (clash : S → Bool) (f : S → S × A)
      → ((s : S) → R s (f s).0)
      → Keeps R (exec_unique clash f)
  exec_unique-Keeps clash f h = exec_unique-Keeps_fresh clash f (λ s e. h s)

  pub equal_fold_of-Keeps : (a b : List ℕ) → Keeps R (equal_fold_of a b)
  unfolding equal_fold_of
  equal_fold_of-Keeps a b = keeps λ w. p.refl' w.db

  commit-keeps :
      {A : Type 0} (before : S) (r : Result A) (w : World S)
      → R before w.db
      → R before (commit before r w).1.db
  commit-keeps before (ok a) w h = elim (Bool-cases (w.env.fails w.tick)) [
    | inl e ↦ rw e (p.refl' before)
    | inr e ↦ rw e h
  ]
  commit-keeps before (err e) w h = p.refl' before

  pub transaction-Keeps : {A : Type 0} (m : M S A) → Keeps R m → Keeps R (transaction m)
  unfolding transaction
  transaction-Keeps m h = keeps λ w. commit-keeps w.db (m w).0 (m w).1 (run-Keeps h w)

  pub one-Keeps : {A : Type 0} (o : Option A) → Keeps R (one o)
  one-Keeps none = fail-Keeps record_not_found
  one-Keeps (some a) = pure-Keeps a

  pub first-Keeps : {A : Type 0} (q : S → Option A) → Keeps R (first q)
  first-Keeps q = bind-Keeps (query q) one (query-Keeps q) one-Keeps

  pub some_row-Keeps : (n : ℕ) → Keeps R (some_row n)
  some_row-Keeps zero = fail-Keeps record_not_found
  some_row-Keeps (suc n) = pure-Keeps tt

  pub when_not_found-Keeps :
      {A : Type 0} (m : M S A) (e : Error) → Keeps R m → Keeps R (when_not_found m e)
  when_not_found-Keeps m e h = catch-Keeps m _ h (λ x. fail-Keeps _)

-- The rules by which `search` takes a method apart; the preorder is listed with them.
pub ruleset keep_rules = (
  pure-Keeps, fail-Keeps, bind-Keeps, catch-Keeps, ignore-Keeps, guard-Keeps, if-Keeps, now-Keeps,
  new_uuid-Keeps, query-Keeps, equal_fold_of-Keeps, transaction-Keeps, one-Keeps, first-Keeps,
  some_row-Keeps, when_not_found-Keeps,
)
