-- ===== src/Auth/Tests.antt =====
-- The theorems on accounts at concrete inputs: user 7 with one session, whose refresh token is 1.
use firmflow.Base.{ℕ, ◌≡◌, refl, String, Bool, true, false, none, some, List, [], ◌∷◌, arith, find?}
use firmflow.Store.{World, ok, query, exec, exec_unique, now, new_uuid, transaction}
use firmflow.Model.{
  delete_where, User, AuthSession, SingleUseToken, AuthThrottle, Tables, no_tables, update_where,
}
use firmflow.Sample.{quiet, crypto}
use firmflow.Auth.External.{AuthConfig, draw, generate_secure_token}
use firmflow.Auth.Requests.{log_out, forgot, Request, serve_all}
use firmflow.Auth.Service.{
  issue_session_tokens, finish_login, hash_password, login, verify_email, issue_access_token,
  token_pair, new_session, TokenPair, refresh,
}
use firmflow.Auth.History.Relations.{Histories}
use firmflow.Auth.Repository.Sessions.{
  create_session, rotate_session, get_session_by_refresh_hash, SessionMeta,
}
use firmflow.Auth.Once.Replay.{
  reset_password_once, verify_email_once, refresh_once, serve_all-Histories,
}
use firmflow.Auth.Service.Passwords.{reset_password}
use firmflow.Auth.Lockout.Stored.{increment-FailedOnce, FailedOnce}
use firmflow.Auth.Repository.Throttle.{
  reset_throttle, new_throttle, save_throttle, is_email_locked, of_email,
  create_or_increment_throttle, is_locked,
}
use firmflow.Auth.SignIn.{login-SignedIn, SignedIn}
use firmflow.Auth.Repository.{
  update_sessions, consume_reset_token_and_set_password, find_user_by_email, update_user,
  consume_email_verification_token, normalize_email,
}
use firmflow.Base.Text.{trim_space}
use firmflow.Auth.Password.{validate_password_strength}
use firmflow.Auth.Lockout.{lockout_threshold, after_failures}
use firmflow.Db.{append_audit_log}

abbrev settings : AuthConfig
settings = record {
  access_token_ttl = 60;
  refresh_token_ttl = 3600;
  login_attempt_window = 900;
  max_login_attempts = 2;
}

abbrev user_7 : User
user_7 = record {
  id = 7;
  email = 0x61 ∷ [];
  password_hash = "hashed";
  email_verified_at = some 1;
  two_factor_enabled = false;
  deletion_grace_at = none;
  deleted_at = none;
  created_at = 0;
  updated_at = 0;
}

abbrev session_31 : AuthSession
session_31 = record {
  id = 31;
  user_id = 7;
  refresh_token_hash = "one";
  expires_at = 100000;
  user_agent = "";
  ip = "";
  last_seen_at = 0;
  revoked_at = none;
  replaced_by_session_id = none;
  created_at = 0;
  updated_at = 0;
}

abbrev session_32 : AuthSession
session_32 = record session_31 { id = 32; refresh_token_hash = "two"; revoked_at = some 9 }

abbrev token_41 : SingleUseToken
token_41 = record {
  id = 41;
  user_id = 7;
  token_hash = "one";
  expires_at = 100000;
  consumed_at = none;
  created_at = 0;
}

abbrev throttle_51 : AuthThrottle
throttle_51 = record {
  id = 51;
  email_key = 0x61 ∷ [];
  failed_attempts = 2;
  first_failed_at = some 400;
  lock_until = some 2000;
  updated_at = 0;
  created_at = 0;
}

abbrev accounts : World Tables
accounts = record {
  env = quiet;
  tick = 0;
  db = record no_tables {
    users = user_7 ∷ [];
    auth_sessions = session_31 ∷ session_32 ∷ [];
    email_verification_tokens = token_41 ∷ [];
    password_reset_tokens = token_41 ∷ [];
  };
}

abbrev locked_accounts : World Tables
locked_accounts = record accounts { db = record accounts.db { auth_throttles = throttle_51 ∷ [] } }

abbrev browser : SessionMeta
browser = record { user_agent = "browser"; ip = "" }

abbrev strong : List ℕ
strong = 65 ∷ 97 ∷ 48 ∷ 33 ∷ 65 ∷ 97 ∷ 48 ∷ 33 ∷ 65 ∷ 97 ∷ 48 ∷ 33 ∷ []

abbrev anywhere : String → Bool
anywhere s = true

abbrev some_calls : List Request
some_calls = forgot (0x61 ∷ []) ∷ log_out (1 ∷ []) ∷ []

serve_all-Histories_example :
    Histories accounts.db (serve_all crypto settings anywhere some_calls accounts).db
serve_all-Histories_example = serve_all-Histories crypto settings anywhere some_calls accounts

abbrev new_pair : TokenPair
new_pair = record {
  access_token = [];
  access_expires_at = 572;
  refresh_token = 1003 ∷ [];
  refresh_expires_at = 4113;
  session_id = 1006;
  two_factor_required = false;
}

refreshed : (refresh crypto settings (1 ∷ []) browser accounts).0 ≡ ok new_pair
unfolding refresh get_session_by_refresh_hash generate_secure_token draw new_session rotate_session
    create_session token_pair issue_access_token query exec exec_unique now new_uuid transaction
    update_where
refreshed = refl

refresh_once_example : ¬ (
    (refresh crypto settings (1 ∷ []) browser (
      serve_all crypto settings anywhere some_calls
        (refresh crypto settings (1 ∷ []) browser accounts).1)).0
    ≡ ok new_pair)
refresh_once_example =
    refresh_once crypto settings anywhere (1 ∷ []) browser browser some_calls accounts new_pair
      new_pair (omega arith) refreshed

password_reset : (reset_password crypto (1 ∷ []) strong accounts).0 ≡ ok tt
unfolding reset_password validate_password_strength hash_password draw
    consume_reset_token_and_set_password update_user update_sessions append_audit_log query exec
    exec_unique now new_uuid transaction update_where
password_reset = refl

reset_password_once_example : ¬ (
    (reset_password crypto (1 ∷ []) strong (
      serve_all crypto settings anywhere some_calls
        (reset_password crypto (1 ∷ []) strong accounts).1)).0
    ≡ ok tt)
reset_password_once_example =
    reset_password_once crypto settings anywhere (1 ∷ []) strong strong some_calls accounts
      (omega arith) password_reset

email_verified : (verify_email crypto (1 ∷ []) accounts).0 ≡ ok tt
unfolding verify_email consume_email_verification_token update_user query exec now transaction
    update_where
email_verified = refl

verify_email_once_example : ¬ (
    (verify_email crypto
      (1 ∷ [])
      (serve_all crypto settings anywhere some_calls (verify_email crypto (1 ∷ []) accounts).1)).0
    ≡ ok tt)
verify_email_once_example =
    verify_email_once crypto settings anywhere (1 ∷ []) some_calls accounts (omega arith)
      email_verified

-- Five failures with two attempts allowed.
lockout_threshold_example :
    is_locked 1000
      (some (after_failures 900 2 (new_throttle 1 400 (0x61 ∷ [])) (410 ∷ 420 ∷ 430 ∷ 440 ∷ [])))
    ≡ true
lockout_threshold_example =
    lockout_threshold 900 2 1 400 410 1000 (0x61 ∷ []) (420 ∷ 430 ∷ 440 ∷ []) (omega arith)
      ((omega arith, omega arith), ((omega arith, omega arith), ((omega arith, omega arith), tt)))
      (omega arith)

-- Two failures with two attempts allowed do not lock.
two_failures :
    is_locked 430 (some (after_failures 900 2 (new_throttle 1 400 []) (410 ∷ []))) ≡ false
two_failures = lockout_threshold 900 2 1 400 410 430 [] [] (omega arith) tt (omega arith)

failure_counted : (create_or_increment_throttle crypto (0x61 ∷ []) 900 2 locked_accounts).0 ≡ ok tt
unfolding create_or_increment_throttle normalize_email trim_space save_throttle query exec now
    transaction
failure_counted = refl

increment-FailedOnce_example :
    FailedOnce 900 2
      (normalize_email crypto (0x61 ∷ []))
      (find? (of_email (normalize_email crypto (0x61 ∷ []))) locked_accounts.db.auth_throttles)
      (find?
        (of_email (normalize_email crypto (0x61 ∷ [])))
        (create_or_increment_throttle crypto (0x61 ∷ []) 900 2 locked_accounts).1.db.auth_throttles)
increment-FailedOnce_example =
    increment-FailedOnce crypto (0x61 ∷ []) 900 2 locked_accounts failure_counted

abbrev signed_in_pair : TokenPair
signed_in_pair = record new_pair {
  access_expires_at = 571;
  refresh_token = 1005 ∷ [];
  refresh_expires_at = 4112;
  session_id = 1008;
}

signed_in : (login crypto settings (0x61 ∷ []) strong [] [] browser accounts).0 ≡ ok signed_in_pair
unfolding login is_email_locked is_locked normalize_email trim_space find_user_by_email finish_login
    reset_throttle issue_session_tokens generate_secure_token draw new_session create_session
    token_pair issue_access_token query exec exec_unique now new_uuid delete_where
signed_in = refl

login-SignedIn_example :
    SignedIn crypto
      (normalize_email crypto (normalize_email crypto (0x61 ∷ [])))
      strong
      []
      []
      accounts
      signed_in_pair
login-SignedIn_example =
    login-SignedIn crypto settings (0x61 ∷ []) strong [] [] browser accounts signed_in_pair
      signed_in
