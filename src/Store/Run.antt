-- ===== src/Store/Run.antt =====
-- A run that returned, step by step: each step passed, and the rest ran in the world that it left.
use firmflow.Base.{Bool, true, false, Bool-cases, inl, inr, Option, none, some, ◌≡◌, refl}
use firmflow.Store.Monad.{
  commit, transaction, Error, Result, ok, err, World, M, bind_result, ◌>>=◌, catch, guard, next,
  query, one, first,
}

-- A handler that returns nothing, in any world.
abbrev pub Refuses : {S A : Type 0} → M S A → Type 0
Refuses {S} {A} m = (w : World S) → (e : Error) × ((m w).0 ≡ err e)

module _ {S A B : Type 0} {b : B} where
  bind_result-ok :
      (f : A → M S B) (r : Result A) (v : World S)
      → (bind_result f r v).0 ≡ ok b
      → (a : A) × (r ≡ ok a) × ((f a v).0 ≡ ok b)
  bind_result-ok f (ok a) v h = (a, refl, h)
  bind_result-ok f (err e) v h = absurd (cc h)

  -- The first part returned, and then the second did.
  pub after_bind :
      (m : M S A) (f : A → M S B) (w : World S)
      → ((m >>= f) w).0 ≡ ok b
      → (a : A) × ((m w).0 ≡ ok a) × ((f a (m w).1).0 ≡ ok b)
  after_bind m f w h = bind_result-ok f (m w).0 (m w).1 h

  pub after_query :
      (q : S → A) (f : A → M S B) (w : World S)
      → ((query q >>= f) w).0 ≡ ok b
      → (f (q w.db) (next w)).0 ≡ ok b
  unfolding query
  after_query q f w h = elim (Bool-cases (w.env.fails w.tick)) [
    | inl e ↦ absurd (cc (rw e at h))
    | inr e ↦ rw e at h
  ]

  refused : (m : M S A) (f : A → M S B) (w : World S) → Refuses m → ((m >>= f) w).0 ≡ ok b → ⊥
  refused m f w r h =
      let returned = (after_bind m f w h).1 in let failed = (r w).1 in cc (returned, failed)

  found :
      (o : Option A) (k : Error → M S A) (f : A → M S B) (v : World S)
      → ((e : Error) → Refuses (k e))
      → ((catch (one o) k >>= f) v).0 ≡ ok b
      → (a : A) × (o ≡ some a) × ((f a v).0 ≡ ok b)
  found none k f v r h =
      absurd (refused (k Error.record_not_found) f v (r Error.record_not_found) h)
  found (some a) k f v r h = (a, refl, h)

  -- A read that found its row, with a handler that would have refused.
  pub after_first :
      (q : S → Option A) (k : Error → M S A) (f : A → M S B) (w : World S)
      → ((e : Error) → Refuses (k e))
      → ((catch (first q) k >>= f) w).0 ≡ ok b
      → (a : A) × (q w.db ≡ some a) × ((f a (next w)).0 ≡ ok b)
  unfolding query
  after_first q k f w r h = elim (Bool-cases (w.env.fails w.tick)) [
    | inl e ↦ absurd (refused (k Error.db_failure) f (next w) (r Error.db_failure) (rw e at h))
    | inr e ↦ found (q w.db) k f (next w) r (rw e at h)
  ]

module _ {S B : Type 0} {b : B} where
  pub after_guard :
      (c : Bool) (e : Error) (f : Unit {0} → M S B) (w : World S)
      → ((guard c e >>= f) w).0 ≡ ok b
      → (c ≡ true) × ((f tt w).0 ≡ ok b)
  after_guard true e f w h = (refl, h)
  after_guard false e f w h = absurd (cc h)

-- A method came to its end with these tables, or failed and left the tables as they were.
pub data Whole {S A : Type 0} (before : S) (Q : A → S → Type 0) (r : Result A) (s : S)
    : Type 0 where
  done : (a : A) → r ≡ ok a → Q a s → Whole before Q r s
  undone : (e : Error) → r ≡ err e → s ≡ before → Whole before Q r s

module _ {S A : Type 0} {Q : A → S → Type 0} where
  commit-Whole :
      (before : S) (r : Result A) (v : World S)
      → ((a : A) → r ≡ ok a → Q a v.db)
      → Whole before Q (commit before r v).0 (commit before r v).1.db
  commit-Whole before (ok a) v h = elim (Bool-cases (v.env.fails v.tick)) [
    | inl e ↦ rw e (undone Error.db_failure refl refl)
    | inr e ↦ rw e (done a refl (h a refl))
  ]
  commit-Whole before (err x) v h = undone x refl refl

  -- What a transaction does: all of it, or nothing.
  pub transaction-Whole :
      (m : M S A) (w : World S)
      → ((a : A) → (m w).0 ≡ ok a → Q a (m w).1.db)
      → Whole w.db Q (transaction m w).0 (transaction m w).1.db
  unfolding transaction
  transaction-Whole m w h = commit-Whole w.db (m w).0 (m w).1 h
