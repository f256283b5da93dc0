-- ===== src/Store/Monad.antt =====
-- Errors, the world, and statements on tables.
use firmflow.Base.{ℕ, zero, suc, String, Bool, if◌then◌else◌, Option, none, some, List}

-- `AppError`, without the details that are only sent to the client.
pub record AppError : Type 0 where
  pub code : String
  pub message : String
  pub http_status : ℕ

-- `gorm.ErrRecordNotFound`, a failure of the database, a refusal by a unique index (whose text says
-- so, as callers test), `errors.New` and an `AppError`.
pub data Error : Type 0 where
  record_not_found db_failure duplicate_key : Error
  plain : String → Error
  app : AppError → Error

abbrev pub bad_request : String → Error
bad_request message = app (record { code = "bad_request"; message = message; http_status = 400 })

abbrev pub unauthorized : Error
unauthorized =
    app
      (record { code = "unauthorized"; message = "authentication is required"; http_status = 401 })

abbrev pub forbidden : Error
forbidden = app (record {
  code = "forbidden";
  message = "you do not have permission to perform this action";
  http_status = 403;
})

abbrev pub not_found : String → Error
not_found message = app (record { code = "not_found"; message = message; http_status = 404 })

abbrev pub conflict : String → String → Error
conflict code message = app (record { code = code; message = message; http_status = 409 })

pub data Result (A : Type 0) : Type 0 where
  ok : A → Result A
  err : Error → Result A

-- What the n-th outside event does: whether a statement fails, the UUID drawn, the time read. The
-- last field is `strings.EqualFold`, whose case table is not part of the repository.
pub record Env : Type 0 where
  pub fails : ℕ → Bool
  pub uuid_new : ℕ → ℕ
  pub clock : ℕ → ℕ
  pub equal_fold : List ℕ → List ℕ → Bool

pub record World (S : Type 0) : Type 0 where
  pub env : Env
  pub tick : ℕ
  pub db : S

abbrev pub M : Type 0 → Type 0 → Type 0
M S A = World S → Result A × World S

module _ {S : Type 0} where
  abbrev pub pure : {A : Type 0} → A → M S A
  pure a w = (ok a, w)

  abbrev pub fail : {A : Type 0} → Error → M S A
  fail e w = (err e, w)

  abbrev pub bind_result : {A B : Type 0} → (A → M S B) → Result A → World S → Result B × World S
  bind_result f (ok a) w = f a w
  bind_result f (err e) w = (err e, w)

  infixl 5 ◌>>=◌ ◌>>◌
  abbrev pub ◌>>=◌ : {A B : Type 0} → M S A → (A → M S B) → M S B
  ◌>>=◌ m f w = bind_result f (m w).0 (m w).1

  abbrev pub ◌>>◌ : {B : Type 0} → M S (Unit {0}) → M S B → M S B
  m >> k = m >>= λ _. k

  -- `if err := m; err != nil { … }`: the error goes to a handler.
  abbrev pub catch_result : {A : Type 0} → (Error → M S A) → Result A → World S → Result A × World S
  catch_result h (ok a) w = (ok a, w)
  catch_result h (err e) w = h e w

  abbrev pub catch : {A : Type 0} → M S A → (Error → M S A) → M S A
  catch m h w = catch_result h (m w).0 (m w).1

  -- `_ = m`: the effect, with the result thrown away.
  abbrev pub ignore : {A : Type 0} → M S A → M S (Unit {0})
  ignore m w = (ok tt, (m w).1)

  abbrev pub guard : Bool → Error → M S (Unit {0})
  guard b e = if b then pure tt else fail e

  abbrev pub next : World S → World S
  next w = record w { tick = suc w.tick }

  -- `time.Now()` and `uuid.New()`.
  unfoldable pub now : M S ℕ
  now w = (ok (w.env.clock w.tick), next w)

  unfoldable pub new_uuid : M S ℕ
  new_uuid w = (ok (w.env.uuid_new w.tick), next w)

  -- One statement: it fails with no effect, or reads the tables, or changes them.
  unfoldable pub query : {A : Type 0} → (S → A) → M S A
  query q w = if w.env.fails w.tick then (err db_failure, next w) else (ok (q w.db), next w)

  unfoldable pub exec : {A : Type 0} → (S → S × A) → M S A
  exec f w =
      if w.env.fails w.tick
      then (err db_failure, next w)
      else (ok (f w.db).1, record (next w) { db = (f w.db).0 })

  -- `db.Transaction(f)`: an error of `f`, or a failing commit, leaves the tables as they were.
  abbrev pub commit : {A : Type 0} → S → Result A → World S → Result A × World S
  commit before (ok a) w =
      if w.env.fails w.tick
      then (err db_failure, record (next w) { db = before })
      else (ok a, next w)
  commit before (err e) w = (err e, record w { db = before })

  unfoldable pub transaction : {A : Type 0} → M S A → M S A
  transaction m w = commit w.db (m w).0 (m w).1

  unfoldable pub equal_fold_of : List ℕ → List ℕ → M S Bool
  equal_fold_of a b w = (ok (w.env.equal_fold a b), w)

  -- A statement that a unique index may refuse.
  unfoldable pub exec_unique : {A : Type 0} → (S → Bool) → (S → S × A) → M S A
  exec_unique clash f w =
      if w.env.fails w.tick
      then (err db_failure, next w)
      else if clash w.db
      then (err duplicate_key, next w)
      else (ok (f w.db).1, record (next w) { db = (f w.db).0 })

  -- `First`: an empty answer is `gorm.ErrRecordNotFound`.
  abbrev pub one : {A : Type 0} → Option A → M S A
  one none = fail record_not_found
  one (some a) = pure a

  abbrev pub first : {A : Type 0} → (S → Option A) → M S A
  first q = query q >>= one

  -- `RowsAffected == 0` after an update is `gorm.ErrRecordNotFound`.
  abbrev pub some_row : ℕ → M S (Unit {0})
  some_row zero = fail record_not_found
  some_row (suc n) = pure tt

  -- `err == gorm.ErrRecordNotFound`, and `err.Error() == text` for an `errors.New(text)`.
  abbrev pub when_not_found : {A : Type 0} → M S A → Error → M S A
  when_not_found m e = catch m (λ x. fail (elim x [ record_not_found ↦ e | other ↦ other ]))
