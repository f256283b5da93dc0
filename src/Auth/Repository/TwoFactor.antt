-- ===== src/Auth/Repository/TwoFactor.antt =====
-- Two-factor settings and recovery codes.
use firmflow.Base.{
  ℕ, String, Bool, true, false, ◌&&◌, Option, none, some, is_none, List, [], ◌∷◌, ◌==◌, ltb, str_eq,
  any, find?, count,
}
use firmflow.Store.{◌>>=◌, ◌>>◌, pure, now, new_uuid, ignore, exec, exec_unique, transaction, first}
use firmflow.Model.{TwoFactorSetting, RecoveryCode, Tables, update_where, delete_where, insert_row}
use firmflow.Db.{Db}
use firmflow.Auth.Repository.{update_user}

abbrev pub setting_of : ℕ → TwoFactorSetting → Bool
setting_of user_id t = t.user_id == user_id

unfoldable pub upsert_two_factor : ℕ → String → Db (Unit {0})
upsert_two_factor user_id secret_encrypted = transaction do
  ignore (
      exec λ t. (
        record t { two_factor_settings = delete_where (setting_of user_id) t.two_factor_settings },
        tt,
      ))
  id ← new_uuid
  at ← now
  exec_unique (λ t. any (setting_of user_id) t.two_factor_settings)
      λ t. (
        record t {
          two_factor_settings =
              insert_row
                (record {
                  id = id;
                  user_id = user_id;
                  secret_encrypted = secret_encrypted;
                  enabled_at = none;
                  created_at = at;
                  updated_at = at;
                })
                t.two_factor_settings;
        },
        tt,
      )

abbrev pub code_of : ℕ → RecoveryCode → Bool
code_of setting_id r = r.two_factor_setting_id == setting_id

unfoldable pub insert_recovery_codes : ℕ → List String → Db (Unit {0})
insert_recovery_codes setting_id [] = pure tt
insert_recovery_codes setting_id (h ∷ hs) = do
  id ← new_uuid
  at ← now
  exec_unique (λ t. any (λ r. str_eq r.code_hash h) t.recovery_codes)
      λ t. (
        record t {
          recovery_codes =
              insert_row
                (record {
                  id = id;
                  two_factor_setting_id = setting_id;
                  code_hash = h;
                  used_at = none;
                  created_at = at;
                })
                t.recovery_codes;
        },
        tt,
      )
  insert_recovery_codes setting_id hs

unfoldable pub replace_recovery_codes : ℕ → List String → Db (Unit {0})
unfolding insert_recovery_codes
replace_recovery_codes setting_id hashes = transaction do
  exec λ t. (record t { recovery_codes = delete_where (code_of setting_id) t.recovery_codes }, tt)
  insert_recovery_codes setting_id hashes

abbrev pub find_setting : ℕ → Tables → Option TwoFactorSetting
find_setting user_id t = find? (setting_of user_id) t.two_factor_settings

unfoldable pub get_two_factor_by_user : ℕ → Db TwoFactorSetting
get_two_factor_by_user user_id = first (find_setting user_id)

unfoldable pub mark_two_factor_enabled : ℕ → Db (Unit {0})
unfolding update_user
mark_two_factor_enabled user_id = do
  at ← now
  transaction do
    exec λ t. (
      record t {
        two_factor_settings =
            update_where (setting_of user_id)
              (λ s. record s { enabled_at = some at; updated_at = at }) t.two_factor_settings;
      },
      tt,
    )
    stamped ← now
    update_user user_id (λ u. record u { two_factor_enabled = true; updated_at = stamped })

-- `two_factor_setting_id = ? AND code_hash = ? AND used_at IS NULL`.
abbrev pub unused_code : ℕ → String → RecoveryCode → Bool
unused_code setting_id hash r =
    (r.two_factor_setting_id == setting_id) && (str_eq r.code_hash hash && is_none r.used_at)

-- Whether a row was updated.
unfoldable pub consume_recovery_code : ℕ → String → Db Bool
consume_recovery_code setting_id hash = do
  at ← now
  rows ← exec λ t. (
    record t {
      recovery_codes =
          update_where (unused_code setting_id hash) (λ r. record r { used_at = some at })
            t.recovery_codes;
    },
    count (unused_code setting_id hash) t.recovery_codes,
  )
  pure (ltb 0 rows)

unfoldable pub disable_two_factor : ℕ → Db (Unit {0})
unfolding update_user
disable_two_factor user_id = transaction do
  setting ← first (find_setting user_id)
  exec λ t. (record t { recovery_codes = delete_where (code_of setting.id) t.recovery_codes }, tt)
  exec λ t. (
    record t { two_factor_settings = delete_where (λ s. s.id == setting.id) t.two_factor_settings },
    tt,
  )
  at ← now
  update_user user_id (λ u. record u { two_factor_enabled = false; updated_at = at })
