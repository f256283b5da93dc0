-- ===== src/Auth/Service/Passwords.antt =====
-- `ForgotPassword`, `ResetPassword` and `ChangePassword`.
use firmflow.Base.{ℕ, ◌+◌, Option, none, some, List}
use firmflow.Store.{
  ◌>>=◌, ◌>>◌, pure, fail, guard, catch, now, bad_request, unauthorized, when_not_found,
}
use firmflow.Model.{User}
use firmflow.Db.{Db}
use firmflow.Auth.External.{External, generate_secure_token}
use firmflow.Auth.Repository.{
  normalize_email, find_user_by_email, find_user_by_id, create_reset_token,
  consume_reset_token_and_set_password, update_password,
}
use firmflow.Auth.Repository.Sessions.{revoke_all_other_sessions}
use firmflow.Auth.Service.{hour, audit_user, require_strong, hash_password}

-- An unknown address is answered like a known one.
unfoldable pub send_reset : External → Option User → Db (Unit {0})
send_reset x none = pure tt
send_reset x (some user) = do
  raw ← generate_secure_token x
  at ← now
  create_reset_token user.id (x.hash_token raw) (at + hour)

unfoldable pub forgot_password : External → List ℕ → Db (Unit {0})
unfolding send_reset
forgot_password x email = do
  user ←
      catch (do u ← find_user_by_email x (normalize_email x email); pure (some u)) (λ e. pure none)
  send_reset x user

unfoldable pub reset_password : External → List ℕ → List ℕ → Db (Unit {0})
reset_password x raw_token new_password = do
  require_strong new_password
  hash ← hash_password x new_password
  user_id ←
      when_not_found (consume_reset_token_and_set_password (x.hash_token raw_token) hash)
        (bad_request "invalid or expired token")
  audit_user user_id "auth.password_reset"

-- `FindUserByID` and `ComparePassword` as several operations begin.
unfoldable pub confirmed_user : External → ℕ → List ℕ → Db User
confirmed_user x user_id password = do
  user ← catch (find_user_by_id user_id) (λ e. fail unauthorized)
  guard (x.password_matches user.password_hash password) unauthorized
  pure user

unfoldable pub change_password : External → ℕ → ℕ → List ℕ → List ℕ → Db (Unit {0})
unfolding confirmed_user
change_password x user_id current_session_id current_password new_password = do
  require_strong new_password
  _ ← confirmed_user x user_id current_password
  hash ← hash_password x new_password
  update_password user_id hash
  revoke_all_other_sessions user_id current_session_id
  audit_user user_id "auth.password_changed"
