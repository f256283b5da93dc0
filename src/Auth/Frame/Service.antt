-- ===== src/Auth/Frame/Service.antt =====
-- The operations of internal/domain/auth/service keep what the statements keep.
use firmflow.Base.{ℕ, String, Bool, Option, none, some, List}
use firmflow.Store.{Error, Keeps, keep_rules, pure-Keeps, fail-Keeps}
use firmflow.Model.{Tables, User, AuthSession}
use firmflow.Auth.History.{HistoryRelation}
use firmflow.Auth.External.{External, AuthConfig, draw, generate_secure_token}
use firmflow.Auth.Frame
use firmflow.Auth.Service.{
  refused_with, issue_access_token, audit_user, check_second_factor, finish_login, hash_password,
  issue_session_tokens, login, logout, logout_found, new_session, or_fail, refresh, refuse_login,
  register, require_strong, revoke_session, token_pair, try_recovery_code, verify_email,
}
use firmflow.Auth.Repository.{find_user_by_email}
use firmflow.Auth.Repository.Sessions.{
  SessionMeta, get_session_by_refresh_hash, list_active_sessions,
}
use firmflow.Auth.Repository.TwoFactor.{get_two_factor_by_user}
use firmflow.Auth.Password.{validate_password_strength}
use firmflow.Auth.Repository.Throttle.{is_email_locked}

module _ (R : Tables → Tables → Type 0) (k : HistoryRelation R) where
  pub draw-Keeps : Keeps R draw
  unfolding draw
  draw-Keeps = search (keep_rules, k.preorder) depth 12

  pub generate_secure_token-Keeps : (x : External) → Keeps R (generate_secure_token x)
  unfolding generate_secure_token
  generate_secure_token-Keeps x = search (keep_rules, k.preorder, draw-Keeps) depth 12

  pub or_fail-Keeps : {A : Type 0} (o : Option A) → Keeps R (or_fail o)
  or_fail-Keeps none = fail-Keeps k.preorder Error.db_failure
  or_fail-Keeps (some a) = pure-Keeps k.preorder a

  pub hash_password-Keeps : (x : External) (p : List ℕ) → Keeps R (hash_password x p)
  unfolding hash_password
  hash_password-Keeps x p = search (keep_rules, k.preorder, draw-Keeps, or_fail-Keeps) depth 12

  refused_with-Keeps : (o : Option String) → Keeps R (refused_with o)
  refused_with-Keeps none = pure-Keeps k.preorder tt
  refused_with-Keeps (some m) = fail-Keeps k.preorder _

  pub require_strong-Keeps : (p : List ℕ) → Keeps R (require_strong p)
  require_strong-Keeps p = refused_with-Keeps (validate_password_strength p)

  pub audit_user-Keeps : (u : ℕ) (e : String) → Keeps R (audit_user u e)
  audit_user-Keeps u e = search (keep_rules, k.preorder, Frame.append_audit_log-Keeps R k) depth 12

  pub register-Keeps : (x : External) (m p : List ℕ) → Keeps R (register x m p)
  unfolding register
  register-Keeps x m p =
      search
        (
          keep_rules,
          k.preorder,
          require_strong-Keeps,
          hash_password-Keeps,
          Frame.create_user_with_profile-Keeps R k,
          generate_secure_token-Keeps,
          Frame.create_email_verification_token-Keeps R k,
          audit_user-Keeps,
        )
        depth 16

  pub verify_email-Keeps : (x : External) (t : List ℕ) → Keeps R (verify_email x t)
  unfolding verify_email
  verify_email-Keeps x t =
      search (keep_rules, k.preorder, Frame.consume_email_verification_token-Keeps R k) depth 12

  pub token_pair-Keeps :
      (x : External) (c : AuthConfig) (u i : ℕ) (r : List ℕ) → Keeps R (token_pair x c u i r)
  unfolding token_pair issue_access_token
  token_pair-Keeps x c u i r = search (keep_rules, k.preorder, or_fail-Keeps) depth 14

  pub new_session-Keeps :
      (x : External) (c : AuthConfig) (u : ℕ) (m : SessionMeta) (r : List ℕ)
      → Keeps R (new_session x c u m r)
  unfolding new_session
  new_session-Keeps x c u m r = search (keep_rules, k.preorder) depth 12

  issue_session_tokens-Keeps :
      (x : External) (c : AuthConfig) (u : ℕ) (m : SessionMeta)
      → Keeps R (issue_session_tokens x c u m)
  unfolding issue_session_tokens
  issue_session_tokens-Keeps x c u m =
      search
        (
          keep_rules,
          k.preorder,
          generate_secure_token-Keeps,
          new_session-Keeps,
          Frame.create_session-Keeps R k,
          token_pair-Keeps,
        )
        depth 14

  refuse_login-Keeps :
      {A : Type 0} (x : External) (c : AuthConfig) (m : List ℕ)
      → Keeps R (refuse_login {A = A} x c m)
  unfolding refuse_login
  refuse_login-Keeps x c m =
      search (keep_rules, k.preorder, Frame.create_or_increment_throttle-Keeps R k) depth 12

  pub try_recovery_code-Keeps :
      (x : External) (i : ℕ) (r : List ℕ) (d : Bool) → Keeps R (try_recovery_code x i r d)
  unfolding try_recovery_code
  try_recovery_code-Keeps x i r d =
      search (keep_rules, k.preorder, Frame.consume_recovery_code-Keeps R k) depth 12

  check_second_factor-Keeps :
      (x : External) (u : User) (t r : List ℕ) → Keeps R (check_second_factor x u t r)
  unfolding check_second_factor get_two_factor_by_user
  check_second_factor-Keeps x u t r =
      search (keep_rules, k.preorder, try_recovery_code-Keeps, or_fail-Keeps) depth 16

  finish_login-Keeps :
      (x : External) (c : AuthConfig) (m t r : List ℕ) (s : SessionMeta) (u : User)
      → Keeps R (finish_login x c m t r s u)
  unfolding finish_login
  finish_login-Keeps x c m t r s u =
      search
        (
          keep_rules,
          k.preorder,
          check_second_factor-Keeps,
          Frame.reset_throttle-Keeps R k,
          issue_session_tokens-Keeps,
        )
        depth 14

  pub login-Keeps :
      (x : External) (c : AuthConfig) (m p t r : List ℕ) (s : SessionMeta)
      → Keeps R (login x c m p t r s)
  unfolding login is_email_locked find_user_by_email
  login-Keeps x c m p t r s =
      search (keep_rules, k.preorder, refuse_login-Keeps, finish_login-Keeps) depth 18

  pub refresh-Keeps :
      (x : External) (c : AuthConfig) (t : List ℕ) (s : SessionMeta) → Keeps R (refresh x c t s)
  unfolding refresh get_session_by_refresh_hash
  refresh-Keeps x c t s =
      search
        (
          keep_rules,
          k.preorder,
          generate_secure_token-Keeps,
          new_session-Keeps,
          Frame.rotate_session-Keeps R k,
          token_pair-Keeps,
        )
        depth 16

  logout_found-Keeps : (s : Option AuthSession) → Keeps R (logout_found s)
  unfolding logout_found
  logout_found-Keeps none = pure-Keeps k.preorder tt
  logout_found-Keeps (some s) = Frame.revoke_session_row-Keeps R k s.id

  pub logout-Keeps : (x : External) (t : List ℕ) → Keeps R (logout x t)
  unfolding logout get_session_by_refresh_hash
  logout-Keeps x t = search (keep_rules, k.preorder, logout_found-Keeps) depth 16

  pub revoke_session-Keeps : (u i : ℕ) → Keeps R (revoke_session u i)
  unfolding revoke_session list_active_sessions
  revoke_session-Keeps u i =
      search (keep_rules, k.preorder, Frame.revoke_session_row-Keeps R k) depth 14
