-- ===== src/Auth/Repository/Throttle.antt =====
-- The counter of failed logins: `CreateOrIncrementThrottle`, `IsEmailLocked`, `ResetThrottle`.
use firmflow.Base.{
  ℕ, suc, ◌+◌, ◌-◌, Bool, true, false, if◌then◌else◌, Option, none, some, List, ◌==◌, ltb, leb, any,
  find?,
}
use firmflow.Base.Text.{same_bytes}
use firmflow.Store.{◌>>=◌, pure, now, new_uuid, query, exec, exec_unique, transaction}
use firmflow.Model.{AuthThrottle, update_where, delete_where, insert_row}
use firmflow.Db.{Db}
use firmflow.Auth.External.{External}
use firmflow.Auth.Repository.{normalize_email}

abbrev pub of_email : List ℕ → AuthThrottle → Bool
of_email key r = same_bytes r.email_key key

-- The row of a first failure: `first_failed_at` is left at null.
unfoldable pub new_throttle : ℕ → ℕ → List ℕ → AuthThrottle
new_throttle id at key = record {
  id = id;
  email_key = key;
  failed_attempts = 1;
  first_failed_at = none;
  lock_until = none;
  updated_at = at;
  created_at = at;
}

-- `throttle.FirstFailedAt == nil || now.Sub(*throttle.FirstFailedAt) > window`.
unfoldable pub starts_over : ℕ → ℕ → Option ℕ → Bool
starts_over at window none = true
starts_over at window (some start) = ltb window (at - start)

abbrev pub counted : ℕ → ℕ → ℕ → AuthThrottle → AuthThrottle
counted at window max_attempts r =
    if leb max_attempts (suc r.failed_attempts)
    then record r {
      failed_attempts = suc r.failed_attempts;
      lock_until = some (at + window);
      updated_at = at;
    }
    else record r { failed_attempts = suc r.failed_attempts; updated_at = at }

-- What one more failure makes of the row that is there.
unfoldable pub next_throttle : ℕ → ℕ → ℕ → AuthThrottle → AuthThrottle
unfolding starts_over
next_throttle at window max_attempts r =
    if starts_over at window r.first_failed_at
    then record r {
      failed_attempts = 1;
      first_failed_at = some at;
      lock_until = none;
      updated_at = at;
    }
    else counted at window max_attempts r

unfoldable pub save_throttle : ℕ → ℕ → ℕ → List ℕ → Option AuthThrottle → Db (Unit {0})
unfolding new_throttle next_throttle
save_throttle at window max_attempts key none = do
  id ← new_uuid
  created ← now
  exec_unique (λ t. any (of_email key) t.auth_throttles)
      λ t. (
        record t { auth_throttles = insert_row (new_throttle id created key) t.auth_throttles },
        tt,
      )
save_throttle at window max_attempts key (some r) = exec λ t. (
  record t {
    auth_throttles =
        update_where (λ s. s.id == r.id) (λ s. next_throttle at window max_attempts r)
          t.auth_throttles;
  },
  tt,
)

-- The callers throw away whether the account is now locked, and until when.
unfoldable pub create_or_increment_throttle : External → List ℕ → ℕ → ℕ → Db (Unit {0})
unfolding save_throttle
create_or_increment_throttle x email window max_attempts = transaction do
  let key = normalize_email x email
  at ← now
  row ← query λ t. find? (of_email key) t.auth_throttles
  save_throttle at window max_attempts key row

-- `throttle.LockUntil != nil && throttle.LockUntil.After(time.Now())`.
unfoldable pub locks_at : ℕ → Option ℕ → Bool
locks_at at none = false
locks_at at (some until) = ltb at until

unfoldable pub is_locked : ℕ → Option AuthThrottle → Bool
unfolding locks_at
is_locked at none = false
is_locked at (some r) = locks_at at r.lock_until

unfoldable pub is_email_locked : External → List ℕ → Db Bool
unfolding is_locked
is_email_locked x email = do
  let key = normalize_email x email
  row ← query λ t. find? (of_email key) t.auth_throttles
  at ← now
  pure (is_locked at row)

unfoldable pub reset_throttle : External → List ℕ → Db (Unit {0})
reset_throttle x email =
    let key = normalize_email x email in
    exec λ t. (record t { auth_throttles = delete_where (of_email key) t.auth_throttles }, tt)
