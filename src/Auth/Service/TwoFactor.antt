-- ===== src/Auth/Service/TwoFactor.antt =====
-- `BeginEnable2FA`, `ConfirmEnable2FA` and `Disable2FA`.
use firmflow.Base.{ℕ, zero, suc, String, Bool, false, not, ◌&&◌, none, some, List, [], ◌∷◌, map}
use firmflow.Base.Text.{is_empty}
use firmflow.Store.{◌>>=◌, ◌>>◌, pure, fail, guard, catch, now, bad_request}
use firmflow.Db.{Db}
use firmflow.Auth.External.{External, draw, generate_secure_token}
use firmflow.Auth.Repository.TwoFactor.{
  upsert_two_factor, get_two_factor_by_user, replace_recovery_codes, mark_two_factor_enabled,
  disable_two_factor,
}
use firmflow.Auth.Service.{or_fail, try_recovery_code}
use firmflow.Auth.Service.Passwords.{confirmed_user}

unfoldable pub begin_enable_2fa : External → ℕ → List ℕ → Db (Unit {0})
begin_enable_2fa x user_id password = do
  _ ← confirmed_user x user_id password
  seed ← draw
  nonce ← draw
  enc ← or_fail (x.encrypt nonce (x.totp_secret seed))
  upsert_two_factor user_id enc

-- `NewRecoveryCodes` of security/totp.go.
unfoldable pub new_recovery_codes : External → ℕ → Db (List (List ℕ))
new_recovery_codes x zero = pure []
new_recovery_codes x (suc n) = do
  code ← generate_secure_token x
  codes ← new_recovery_codes x n
  pure (code ∷ codes)

unfoldable pub confirm_enable_2fa : External → ℕ → List ℕ → Db (List (List ℕ))
unfolding new_recovery_codes
confirm_enable_2fa x user_id code = do
  setting ←
      catch (get_two_factor_by_user user_id) (λ e. fail (bad_request "2fa setup not initialized"))
  secret ← or_fail (x.decrypt setting.secret_encrypted)
  at ← now
  guard (x.totp_valid at secret code) (bad_request "invalid 2fa code")
  codes ← new_recovery_codes x 8
  replace_recovery_codes setting.id (map x.hash_token codes)
  mark_two_factor_enabled user_id
  pure codes

-- A secret that does not decrypt fails the code, not the call.
unfoldable pub totp_passes : External → ℕ → String → List ℕ → Bool
totp_passes x at secret_encrypted totp_code = elim (x.decrypt secret_encrypted) [
  | none ↦ false
  | some secret ↦ not (is_empty totp_code) && x.totp_valid at secret totp_code
]

unfoldable pub disable_2fa : External → ℕ → List ℕ → List ℕ → List ℕ → Db (Unit {0})
unfolding totp_passes
disable_2fa x user_id password totp_code recovery_code = do
  _ ← confirmed_user x user_id password
  setting ← catch (get_two_factor_by_user user_id) (λ e. fail (bad_request "2fa is not enabled"))
  at ← now
  valid ←
      try_recovery_code x setting.id recovery_code
        (totp_passes x at setting.secret_encrypted totp_code)
  guard valid (bad_request "invalid 2fa confirmation")
  disable_two_factor user_id
