-- ===== src/Db.antt =====
-- Statements on the tables of the program, and internal/domain/auth/repository AppendAuditLog.
use firmflow.Base.{ℕ, String, Bool, Option, some, is_none}
use firmflow.Store.{M, ◌>>=◌, ignore, now, new_uuid, exec}
use firmflow.Model.{Tables, insert_row}

abbrev pub Db : Type 0 → Type 0
Db A = M Tables A

-- `deleted_at IS NULL`, which gorm adds to each query on a model with that column.
abbrev pub live : Option ℕ → Bool
live deleted_at = is_none deleted_at

-- `AppendAuditLog`: `BeforeCreate` draws the id, gorm stamps the time.
unfoldable pub append_audit_log : Option ℕ → String → String → ℕ → Db (Unit {0})
append_audit_log actor event target_type target_id = do
  new_id ← new_uuid
  at ← now
  exec λ t. (
    record t {
      audit_logs =
          insert_row
            (record {
              id = new_id;
              actor_user_id = actor;
              event = event;
              target_type = target_type;
              target_id = target_id;
              created_at = at;
            })
            t.audit_logs;
    },
    tt,
  )

-- `_ = s.audit(…)` of the services that log on a project: a failing log is not reported.
unfoldable pub audit : ℕ → String → ℕ → Db (Unit {0})
audit actor event project_id = ignore (append_audit_log (some actor) event "project" project_id)
