-- ===== src/Auth/Service.antt =====
-- internal/domain/auth/service/service.go: registration, sign-in and tokens. `Passwords`, `TwoFactor`
-- and `Account` have the other operations.
pub mod Passwords
pub mod TwoFactor
pub mod Account
use firmflow.Base.{
  ℕ, ◌+◌, ◌*◌, String, Bool, true, false, not, ◌&&◌, ◌||◌, if◌then◌else◌, Option, none, some,
  is_some, List, [], any, ◌==◌,
}
use firmflow.Store.{
  Error, duplicate_key, record_not_found, app, ◌>>=◌, ◌>>◌, pure, fail, guard, catch, ignore, now,
  AppError, bad_request, not_found, conflict, unauthorized, when_not_found,
}
use firmflow.Model.{User, TwoFactorSetting, AuthSession}
use firmflow.Db.{Db, append_audit_log}
use firmflow.Base.Text.{is_empty}
use firmflow.Auth.External.{External, AuthConfig, draw, generate_secure_token}
use firmflow.Auth.Password.{validate_password_strength}
use firmflow.Auth.Repository.{
  normalize_email, create_user_with_profile, create_email_verification_token, find_user_by_email,
  consume_email_verification_token,
}
use firmflow.Auth.Repository.Sessions.{
  SessionMeta, NewSession, create_session, get_session_by_refresh_hash, rotate_session,
  revoke_session_row, list_active_sessions,
}
use firmflow.Auth.Repository.Throttle.{
  create_or_increment_throttle, is_email_locked, reset_throttle,
}
use firmflow.Auth.Repository.TwoFactor.{get_two_factor_by_user, consume_recovery_code}

abbrev pub second : ℕ
second = 1000000000

abbrev pub hour : ℕ
hour = 3600 * second

-- `_ = s.audit(…)` on a user.
abbrev pub audit_user : ℕ → String → Db (Unit {0})
audit_user user_id event = ignore (append_audit_log (some user_id) event "user" user_id)

-- The message of a weak password becomes a bad request.
abbrev pub refused_with : Option String → Db (Unit {0})
refused_with none = pure tt
refused_with (some message) = fail (bad_request message)

abbrev pub require_strong : List ℕ → Db (Unit {0})
require_strong password = refused_with (validate_password_strength password)

abbrev pub or_fail : {A : Type 0} → Option A → Db A
or_fail none = fail Error.db_failure
or_fail (some a) = pure a

-- `HashPassword`.
unfoldable pub hash_password : External → List ℕ → Db String
hash_password x password = do salt ← draw; or_fail (x.hash_password salt password)

unfoldable pub email_in_use : Error → Error
email_in_use duplicate_key = conflict "email_in_use" "email already in use"
email_in_use e = e

-- The mail that carries the token is sent on the side.
unfoldable pub register : External → List ℕ → List ℕ → Db (Unit {0})
unfolding hash_password email_in_use
register x email password = do
  let email = normalize_email x email
  require_strong password
  hash ← hash_password x password
  user_id ← catch (create_user_with_profile email hash) (λ e. fail (email_in_use e))
  raw_token ← generate_secure_token x
  at ← now
  create_email_verification_token user_id (x.hash_token raw_token) (at + 24 * hour)
  audit_user user_id "auth.registered"

unfoldable pub verify_email : External → List ℕ → Db (Unit {0})
verify_email x raw_token = do
  _ ←
      when_not_found (consume_email_verification_token (x.hash_token raw_token))
        (bad_request "invalid or expired token")
  pure tt

pub record TokenPair : Type 0 where
  pub access_token : List ℕ
  pub access_expires_at : ℕ
  pub refresh_token : List ℕ
  pub refresh_expires_at : ℕ
  pub session_id : ℕ
  pub two_factor_required : Bool

abbrev pub only_second_factor : TokenPair
only_second_factor = record {
  access_token = [];
  access_expires_at = 0;
  refresh_token = [];
  refresh_expires_at = 0;
  session_id = 0;
  two_factor_required = true;
}

-- `IssueAccessToken` of security/jwt.go.
unfoldable pub issue_access_token : External → AuthConfig → ℕ → ℕ → Db (List ℕ × ℕ)
issue_access_token x cfg user_id session_id = do
  at ← now
  signed ← or_fail (x.sign user_id session_id at)
  pure (signed, at + cfg.access_token_ttl)

-- The token pair of a session, once it is stored.
unfoldable pub token_pair : External → AuthConfig → ℕ → ℕ → List ℕ → Db TokenPair
unfolding issue_access_token
token_pair x cfg user_id session_id refresh = do
  access ← issue_access_token x cfg user_id session_id
  at ← now
  pure (record {
    access_token = access.0;
    access_expires_at = access.1;
    refresh_token = refresh;
    refresh_expires_at = at + cfg.refresh_token_ttl;
    session_id = session_id;
    two_factor_required = false;
  })

unfoldable pub new_session : External → AuthConfig → ℕ → SessionMeta → List ℕ → Db NewSession
new_session x cfg user_id meta refresh = do
  at ← now
  seen ← now
  pure (record {
    user_id = user_id;
    refresh_token_hash = x.hash_token refresh;
    expires_at = at + cfg.refresh_token_ttl;
    meta = meta;
    last_seen_at = seen;
  })

unfoldable pub issue_session_tokens : External → AuthConfig → ℕ → SessionMeta → Db TokenPair
unfolding new_session token_pair
issue_session_tokens x cfg user_id meta = do
  refresh ← generate_secure_token x
  session ← new_session x cfg user_id meta refresh
  session_id ← create_session session
  token_pair x cfg user_id session_id refresh

-- The failure is counted, and the caller only learns that it is not signed in.
unfoldable pub refuse_login : {A : Type 0} → External → AuthConfig → List ℕ → Db A
refuse_login x cfg email = do
  ignore (create_or_increment_throttle x email cfg.login_attempt_window cfg.max_login_attempts)
  fail unauthorized

-- A recovery code is tried when the TOTP code did not do.
unfoldable pub try_recovery_code : External → ℕ → List ℕ → Bool → Db Bool
try_recovery_code x setting_id recovery_code done =
    if not done && not (is_empty recovery_code)
    then consume_recovery_code setting_id (x.hash_token recovery_code)
    else pure done

unfoldable pub check_second_factor : External → User → List ℕ → List ℕ → Db (Unit {0})
unfolding try_recovery_code
check_second_factor x user totp_code recovery_code = do
  setting ← catch (get_two_factor_by_user user.id) (λ e. fail unauthorized)
  secret ← or_fail (x.decrypt setting.secret_encrypted)
  at ← now
  done ←
      try_recovery_code x setting.id recovery_code
        (not (is_empty totp_code) && x.totp_valid at secret totp_code)
  guard done unauthorized

abbrev pub account_locked : Error
account_locked = app (record {
  code = "account_locked";
  message = "too many failed attempts; try again later";
  http_status = 429;
})

abbrev pub email_not_verified : Error
email_not_verified =
    app
      (record { code = "email_not_verified"; message = "email is not verified"; http_status = 403 })

-- The part of `Login` behind the password.
unfoldable pub finish_login :
    External → AuthConfig → List ℕ → List ℕ → List ℕ → SessionMeta → User → Db TokenPair
unfolding check_second_factor issue_session_tokens
finish_login x cfg email totp_code recovery_code meta user =
    if user.two_factor_enabled && (is_empty totp_code && is_empty recovery_code)
    then pure only_second_factor
    else do
      (if user.two_factor_enabled
          then check_second_factor x user totp_code recovery_code
          else pure tt)
      ignore (reset_throttle x email)
      issue_session_tokens x cfg user.id meta

unfoldable pub login :
    External → AuthConfig → List ℕ → List ℕ → List ℕ → List ℕ → SessionMeta → Db TokenPair
unfolding refuse_login finish_login
login x cfg email password totp_code recovery_code meta = do
  let email = normalize_email x email
  locked ← is_email_locked x email
  guard (not locked) account_locked
  user ← catch (find_user_by_email x email) (λ e. refuse_login x cfg email)
  guard (is_some user.email_verified_at) email_not_verified
  (if x.password_matches user.password_hash password then pure tt else refuse_login x cfg email)
  finish_login x cfg email totp_code recovery_code meta user

unfoldable pub refresh : External → AuthConfig → List ℕ → SessionMeta → Db TokenPair
unfolding new_session token_pair
refresh x cfg refresh_token meta = do
  current ←
      catch (get_session_by_refresh_hash (x.hash_token refresh_token)) (λ e. fail unauthorized)
  new_refresh ← generate_secure_token x
  session ← new_session x cfg current.user_id meta new_refresh
  session_id ← rotate_session current.id session
  token_pair x cfg current.user_id session_id new_refresh

-- A token that is not found logs out in silence.
unfoldable pub logout_found : Option AuthSession → Db (Unit {0})
logout_found none = pure tt
logout_found (some s) = revoke_session_row s.id

unfoldable pub logout : External → List ℕ → Db (Unit {0})
unfolding logout_found
logout x refresh_token = do
  session ←
      catch (do s ← get_session_by_refresh_hash (x.hash_token refresh_token); pure (some s))
        (λ e. pure none)
  logout_found session

unfoldable pub revoke_session : ℕ → ℕ → Db (Unit {0})
revoke_session user_id session_id = do
  sessions ← list_active_sessions user_id
  guard (any (λ s. s.id == session_id) sessions) (not_found "session not found")
  revoke_session_row session_id
