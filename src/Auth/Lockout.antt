-- ===== src/Auth/Lockout.antt =====
-- When an address is locked: `CreateOrIncrementThrottle` and `IsEmailLocked` of
-- internal/domain/auth/repository/repository.go.
pub mod Stored
use firmflow.Base.{
  subst, ℕ, suc, ◌+◌, ◌≤◌, ◌<◌, Bool, true, false, ◌≡◌, refl, ap, ◌∙◌, List, [], ◌∷◌, Option, none,
  some, ltb, leb, lt→ltb, leb→le, length, All, arith, Bool-cases, inl, inr, ◌⊎◌, find?,
}
use firmflow.Model.{AuthThrottle, Tables}
use firmflow.Auth.Repository.Throttle.{
  of_email, is_email_locked, is_locked, locks_at, new_throttle, starts_over, next_throttle,
}
use firmflow.Auth.Service.{account_locked, login}
use firmflow.Store.{Error, err, World, now, query}
use firmflow.Auth.External.{AuthConfig, External}
use firmflow.Auth.Repository.Sessions.{SessionMeta}
use firmflow.Auth.Repository.{normalize_email}

-- The row after further failures at these times.
pub after_failures : ℕ → ℕ → AuthThrottle → List ℕ → AuthThrottle
after_failures window max_attempts r [] = r
after_failures window max_attempts r (t ∷ ts) =
    after_failures window max_attempts (next_throttle t window max_attempts r) ts

abbrev LockedFrom : ℕ → Option ℕ → Type 0
LockedFrom at none = ⊥
LockedFrom at (some until) = at ≤ until

-- The counter of a window that began at `start`, after so many counted failures.
record Window (start window max_attempts n : ℕ) (r : AuthThrottle) : Type 0 where
  began : r.first_failed_at ≡ some start
  number : r.failed_attempts ≡ n
  open_below : n < max_attempts → r.lock_until ≡ none
  locked_above : max_attempts ≤ n → LockedFrom (start + window) r.lock_until

not_over : (start window at : ℕ) → at ≤ start + window → starts_over at window (some start) ≡ false
unfolding starts_over
not_over start window at h = ground arith

module _ (start window max_attempts : ℕ) where
  counts :
      (n at : ℕ) (r : AuthThrottle)
      → start ≤ at
      → at ≤ start + window
      → Window start window max_attempts n r
      → Window start window max_attempts (suc n) (next_throttle at window max_attempts r)
  unfolding next_throttle
  counts n at r h k v =
      rw (v.began, not_over start window at k)
        (elim (Bool-cases (leb max_attempts (suc r.failed_attempts))) [
          | inl e ↦ rw e (record {
            began = refl;
            number = ap suc v.number;
            open_below = λ l. absurd (ground (arith, v.number));
            locked_above = λ l. omega arith;
          })
          | inr e ↦ rw e (record {
            began = refl;
            number = ap suc v.number;
            open_below = λ l. v.open_below (omega arith);
            locked_above = λ l. absurd (ground (arith, v.number));
          })
        ])

  counts-All :
      (ts : List ℕ) (n : ℕ) (r : AuthThrottle)
      → All (λ t. (start ≤ t) × (t ≤ start + window)) ts
      → Window start window max_attempts n r
      → Window start window max_attempts (n + length ts) (after_failures window max_attempts r ts)
  unfolding after_failures
  counts-All [] n r h v = subst (λ k. Window start window max_attempts k r) (omega arith) v
  counts-All (t ∷ ts) n r h v =
      let one = counts n t r h.0.0 h.0.1 v in
      let rest = counts-All ts (suc n) (next_throttle t window max_attempts r) h.1 one in
      subst
        (λ k.
          Window start window max_attempts k
            (after_failures window max_attempts (next_throttle t window max_attempts r) ts))
        (omega arith) rest

  -- The second failure is the first that is counted, as the first leaves no start of its window.
  second_failure :
      (id at : ℕ) (key : List ℕ)
      → 2 ≤ max_attempts
      → Window start window max_attempts 1
          (next_throttle start window max_attempts (new_throttle id at key))
  unfolding next_throttle starts_over new_throttle
  second_failure id at key h = record {
    began = refl;
    number = refl;
    open_below = λ l. refl;
    locked_above = λ l. absurd (omega arith);
  }

  locks :
      (at : ℕ) (o : Option ℕ)
      → at < start + window
      → LockedFrom (start + window) o
      → locks_at at o ≡ true
  unfolding locks_at
  locks at none h k = absurd k
  locks at (some until) h k = lt→ltb at until (omega arith)

  locked_when :
      (at n : ℕ) (r : AuthThrottle)
      → at < start + window
      → Window start window max_attempts n r
      → is_locked at (some r) ≡ leb max_attempts n
  unfolding is_locked locks_at
  locked_when at n r h v = elim (Bool-cases (leb max_attempts n)) [
    | inl e ↦ rw e (locks at r.lock_until h (v.locked_above (leb→le max_attempts n e)))
    | inr e ↦ rw (v.open_below (ground arith), e) refl
  ]

-- With at least two attempts allowed, and all failures but the first within one window that the
-- second failure begins: while this window lasts the address is locked exactly when the number of
-- failures is more than the number of attempts allowed.
pub lockout_threshold :
    (window max_attempts id first second at : ℕ) (key ts : List ℕ)
    → 2 ≤ max_attempts
    → All (λ t. (second ≤ t) × (t ≤ second + window)) ts
    → at < second + window
    → is_locked at
        (some (after_failures window max_attempts (new_throttle id first key) (second ∷ ts)))
      ≡ ltb max_attempts (length (first ∷ second ∷ ts))
unfolding after_failures
lockout_threshold window max_attempts id first second at key ts h k l =
    let one = second_failure second window max_attempts id first key h in
    let rest =
      counts-All second window max_attempts ts 1
        (next_throttle second window max_attempts (new_throttle id first key)) k one in
    locked_when second window max_attempts at (1 + length ts) _ l rest ∙ ground arith
