-- ===== src/Store/Triple.antt =====
-- What holds when a method returns a value, and when it returns an error.
use firmflow.Base.{
  if◌then◌else◌, Bool, true, false, Bool-cases, inl, inr, Option, none, some, ◌≡◌, refl, sym, ap,
  subst, ◌∙◌,
}
use firmflow.Store.Monad.{
  catch, now, Error, Result, ok, err, World, M, pure, fail, bind_result, ◌>>=◌, catch_result, guard,
  query, exec, one, first, when_not_found, record_not_found,
}
use firmflow.Store.Rules.{Keeps, run-Keeps}

-- `P` of the tables before; `Q` of the value and the tables, or `E` of the tables, after.
pub data Ends {S A : Type 0} (Q : A → S → Type 0) (E : S → Type 0) (r : Result A) (s : S)
    : Type 0 where
  by_value : (a : A) → r ≡ ok a → Q a s → Ends Q E r s
  by_error : (e : Error) → r ≡ err e → E s → Ends Q E r s

pub data Triple {S A : Type 0} (P : S → Type 0) (m : M S A) (Q : A → S → Type 0) (E : S → Type 0)
    : Type 0 where
  triple : ((w : World S) → P w.db → Ends Q E (m w).0 (m w).1.db) → Triple P m Q E

module _ {S A : Type 0} {P : S → Type 0} {Q : A → S → Type 0} {E : S → Type 0} where
  pub run-Triple :
      {m : M S A} → Triple P m Q E → (w : World S) → P w.db → Ends Q E (m w).0 (m w).1.db
  run-Triple (triple h) = h

  pub pure-Triple : (a : A) → ((s : S) → P s → Q a s) → Triple P (pure a) Q E
  pure-Triple a h = triple λ w p. by_value a refl (h w.db p)

  pub fail-Triple : (e : Error) → ((s : S) → P s → E s) → Triple P (fail {A = A} e) Q E
  fail-Triple e h = triple λ w p. by_error e refl (h w.db p)

  query-Ends :
      (q : S → A)
      → ((s : S) → P s → Q (q s) s)
      → ((s : S) → P s → E s)
      → (w : World S) → P w.db
      → Ends Q E (query q w).0 (query q w).1.db
  unfolding query
  query-Ends q h k w p = elim (Bool-cases (w.env.fails w.tick)) [
    | inl e ↦ rw e (by_error Error.db_failure refl (k w.db p))
    | inr e ↦ rw e (by_value (q w.db) refl (h w.db p))
  ]

  pub query-Triple :
      (q : S → A) → ((s : S) → P s → Q (q s) s) → ((s : S) → P s → E s) → Triple P (query q) Q E
  query-Triple q h k = triple (query-Ends q h k)

  exec-Ends :
      (f : S → S × A)
      → ((s : S) → P s → Q (f s).1 (f s).0)
      → ((s : S) → P s → E s)
      → (w : World S) → P w.db
      → Ends Q E (exec f w).0 (exec f w).1.db
  unfolding exec
  exec-Ends f h k w p = elim (Bool-cases (w.env.fails w.tick)) [
    | inl e ↦ rw e (by_error Error.db_failure refl (k w.db p))
    | inr e ↦ rw e (by_value (f w.db).1 refl (h w.db p))
  ]

  pub exec-Triple :
      (f : S → S × A)
      → ((s : S) → P s → Q (f s).1 (f s).0)
      → ((s : S) → P s → E s)
      → Triple P (exec f) Q E
  exec-Triple f h k = triple (exec-Ends f h k)

module _ {S A B : Type 0} {Q : A → S → Type 0} {R : B → S → Type 0} {E : S → Type 0} where
  bind-Ends :
      (f : A → M S B)
      → ((a : A) → Triple (Q a) (f a) R E)
      → (r : Result A) (w : World S) → Ends Q E r w.db
      → Ends R E (bind_result f r w).0 (bind_result f r w).1.db
  bind-Ends f h r w (by_value a e q) = rw e (run-Triple (h a) w q)
  bind-Ends f h r w (by_error x e q) = rw e (by_error x refl q)

  pub bind-Triple :
      {P : S → Type 0} (m : M S A) (f : A → M S B)
      → Triple P m Q E
      → ((a : A) → Triple (Q a) (f a) R E)
      → Triple P (m >>= f) R E
  bind-Triple m f h k = triple λ w p. bind-Ends f k (m w).0 (m w).1 (run-Triple h w p)

module _ {S A : Type 0} {Q : A → S → Type 0} {E : S → Type 0} where
  catch-Ends :
      (f : Error → M S A)
      → ((e : Error) → Triple E (f e) Q E)
      → (r : Result A) (w : World S) → Ends Q E r w.db
      → Ends Q E (catch_result f r w).0 (catch_result f r w).1.db
  catch-Ends f h r w (by_value a e q) = rw e (by_value a refl q)
  catch-Ends f h r w (by_error x e q) = rw e (run-Triple (h x) w q)

  pub catch-Triple :
      {P : S → Type 0} (m : M S A) (f : Error → M S A)
      → Triple P m Q E
      → ((e : Error) → Triple E (f e) Q E)
      → Triple P (catch m f) Q E
  catch-Triple m f h k = triple λ w p. catch-Ends f k (m w).0 (m w).1 (run-Triple h w p)

  pub when_not_found-Triple :
      {P : S → Type 0} (m : M S A) (e : Error) → Triple P m Q E → Triple P (when_not_found m e) Q E
  when_not_found-Triple m e h =
      triple λ w p. catch-Ends _ (λ x. fail-Triple _ (λ s k. k)) (m w).0 (m w).1 (run-Triple h w p)

  pub one-Triple :
      {P : S → Type 0} (o : Option A)
      → ((a : A) → o ≡ some a → (s : S) → P s → Q a s)
      → ((s : S) → P s → E s)
      → Triple P (one o) Q E
  one-Triple none h k = fail-Triple record_not_found k
  one-Triple (some a) h k = pure-Triple a (h a refl)

-- A read that finds a row leaves the tables, and the row is what the query says of them.
pub stays_at : {S : Type 0} (E : S → Type 0) {s0 : S} → E s0 → (s : S) → s ≡ s0 → E s
stays_at E h s e = subst E (sym e) h

pub first-Triple :
    {S A : Type 0} {E : S → Type 0} (s0 : S) (q : S → Option A)
    → E s0
    → Triple (λ s. s ≡ s0) (first q) (λ a s. (s ≡ s0) × (q s0 ≡ some a)) E
first-Triple {E = E} s0 q h =
    bind-Triple {Q = λ o s. (s ≡ s0) × (o ≡ q s0)} (query q) one
      (query-Triple q (λ s e. (e, ap q e)) (stays_at E h))
      (λ o. one-Triple o (λ a f s p. (p.0, sym p.1 ∙ f)) (λ s p. stays_at E h s p.0))

module _ {S : Type 0} {P E : S → Type 0} where
  -- A guard that passes.
  pub guard-Triple :
      (b : Bool) (e : Error)
      → ((s : S) → P s → E s)
      → Triple P (guard b e) (λ x s. P s × (b ≡ true)) E
  guard-Triple true e k = pure-Triple tt (λ s p. (p, refl))
  guard-Triple false e k = fail-Triple e k

weaker :
    {S A : Type 0} {Q R : A → S → Type 0} {E : S → Type 0} {r : Result A} {s : S}
    → ((a : A) (t : S) → Q a t → R a t)
    → Ends Q E r s
    → Ends R E r s
weaker {s = s} h (by_value a e q) = by_value a e (h a s q)
weaker h (by_error x e q) = by_error x e q

module _ {S A : Type 0} {P : S → Type 0} {Q : A → S → Type 0} {E : S → Type 0} where
  -- A fact that does not speak of the tables is a hypothesis of the rest.
  pub with_fact : {F : Type 0} {m : M S A} → (F → Triple P m Q E) → Triple (λ s. P s × F) m Q E
  with_fact h = triple λ w p. run-Triple (h p.1) w p.0

  pub weaken-Triple :
      {R : A → S → Type 0} {m : M S A}
      → ((a : A) (t : S) → Q a t → R a t)
      → Triple P m Q E
      → Triple P m R E
  weaken-Triple h k = triple λ w p. weaker h (run-Triple k w p)

module _ {S A : Type 0} {R : S → S → Type 0} (I : S → Type 0)
    (keep : (s t : S) → R s t → I s → I t) where
  Ends-result : (r : Result A) (s : S) → I s → Ends (λ a. I) I r s
  Ends-result (ok a) s h = by_value a refl h
  Ends-result (err e) s h = by_error e refl h

  -- What a relation kept by the method preserves.
  pub Keeps-Triple : (m : M S A) → Keeps R m → Triple I m (λ a. I) I
  Keeps-Triple m h =
      triple λ w p. Ends-result (m w).0 (m w).1.db (keep w.db (m w).1.db (run-Keeps h w) p)

pub now-Triple : {S : Type 0} {P E : S → Type 0} → Triple P now (λ at. P) E
unfolding now
now-Triple = triple λ w p. by_value (w.env.clock w.tick) refl p

pub if-Triple :
    {S A : Type 0} {P : S → Type 0} {Q : A → S → Type 0} {E : S → Type 0} (b : Bool) (m n : M S A)
    → Triple P m Q E
    → Triple P n Q E
    → Triple P (if b then m else n) Q E
if-Triple true m n h k = h
if-Triple false m n h k = k
