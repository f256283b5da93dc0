-- ===== src/Auth/Requests.antt =====
-- The account service under any sequence of calls, with any failures of the database in between.
use firmflow.Base.{ℕ, List, [], ◌∷◌, String, Bool}
use firmflow.Base.Int.{ℤ}
use firmflow.Store.{World, run-Keeps}
use firmflow.Model.{Tables, UserProfile}
use firmflow.Auth.History.{HistoryRelation}
use firmflow.Auth.External.{AuthConfig, External}
use firmflow.Auth.Repository.Sessions.{revoke_all_other_sessions, SessionMeta}
use firmflow.Auth.Frame.Service.{
  revoke_session-Keeps, logout-Keeps, refresh-Keeps, login-Keeps, verify_email-Keeps,
  register-Keeps,
}
use firmflow.Auth.Service.{revoke_session, logout, refresh, login, verify_email, register}
use firmflow.Auth.Service.Passwords.{change_password, reset_password, forgot_password}
use firmflow.Auth.Frame.Account.{
  delete_account-Keeps, change_profile-Keeps, disable_2fa-Keeps, confirm_enable_2fa-Keeps,
  begin_enable_2fa-Keeps, change_password-Keeps, reset_password-Keeps, forgot_password-Keeps,
}
use firmflow.Auth.Service.TwoFactor.{disable_2fa, confirm_enable_2fa, begin_enable_2fa}
use firmflow.Auth.Service.Account.{delete_account, change_profile}
use firmflow.Auth.Frame.{revoke_all_other_sessions-Keeps}

-- The calls of internal/domain/auth/service that can write, each with its arguments.
pub data Request : Type 0 where
  register_with : List ℕ → List ℕ → Request
  verify : List ℕ → Request
  sign_in : List ℕ → List ℕ → List ℕ → List ℕ → SessionMeta → Request
  refresh_with : List ℕ → SessionMeta → Request
  log_out : List ℕ → Request
  revoke : ℕ → ℕ → Request
  revoke_others : ℕ → ℕ → Request
  forgot : List ℕ → Request
  reset : List ℕ → List ℕ → Request
  change : ℕ → ℕ → List ℕ → List ℕ → Request
  begin_2fa : ℕ → List ℕ → Request
  confirm_2fa : ℕ → List ℕ → Request
  end_2fa : ℕ → List ℕ → List ℕ → List ℕ → Request
  set_profile : ℕ → UserProfile → Request
  delete : ℕ → List ℕ → ℤ → Request

module _ (x : External) (cfg : AuthConfig) (is_location : String → Bool) where
  -- The world after a call, whatever the call returned.
  pub serve : Request → World Tables → World Tables
  serve (register_with m p) w = (register x m p w).1
  serve (verify t) w = (verify_email x t w).1
  serve (sign_in m p t r s) w = (login x cfg m p t r s w).1
  serve (refresh_with t s) w = (refresh x cfg t s w).1
  serve (log_out t) w = (logout x t w).1
  serve (revoke u i) w = (revoke_session u i w).1
  serve (revoke_others u i) w = (revoke_all_other_sessions u i w).1
  serve (forgot m) w = (forgot_password x m w).1
  serve (reset t p) w = (reset_password x t p w).1
  serve (change u i p q) w = (change_password x u i p q w).1
  serve (begin_2fa u p) w = (begin_enable_2fa x u p w).1
  serve (confirm_2fa u c) w = (confirm_enable_2fa x u c w).1
  serve (end_2fa u p t r) w = (disable_2fa x u p t r w).1
  serve (set_profile u p) w = (change_profile is_location u p w).1
  serve (delete u p g) w = (delete_account x u p g w).1

  pub serve_all : List Request → World Tables → World Tables
  serve_all [] w = w
  serve_all (r ∷ rs) w = serve_all rs (serve r w)

  module _ (R : Tables → Tables → Type 0) (k : HistoryRelation R) where
    pub serve_kept : (r : Request) (w : World Tables) → R w.db (serve r w).db
    unfolding serve
    serve_kept (register_with m p) = run-Keeps (register-Keeps R k x m p)
    serve_kept (verify t) = run-Keeps (verify_email-Keeps R k x t)
    serve_kept (sign_in m p t r s) = run-Keeps (login-Keeps R k x cfg m p t r s)
    serve_kept (refresh_with t s) = run-Keeps (refresh-Keeps R k x cfg t s)
    serve_kept (log_out t) = run-Keeps (logout-Keeps R k x t)
    serve_kept (revoke u i) = run-Keeps (revoke_session-Keeps R k u i)
    serve_kept (revoke_others u i) = run-Keeps (revoke_all_other_sessions-Keeps R k u i)
    serve_kept (forgot m) = run-Keeps (forgot_password-Keeps R k x m)
    serve_kept (reset t p) = run-Keeps (reset_password-Keeps R k x t p)
    serve_kept (change u i p q) = run-Keeps (change_password-Keeps R k x u i p q)
    serve_kept (begin_2fa u p) = run-Keeps (begin_enable_2fa-Keeps R k x u p)
    serve_kept (confirm_2fa u c) = run-Keeps (confirm_enable_2fa-Keeps R k x u c)
    serve_kept (end_2fa u p t r) = run-Keeps (disable_2fa-Keeps R k x u p t r)
    serve_kept (set_profile u p) = run-Keeps (change_profile-Keeps R k is_location u p)
    serve_kept (delete u p g) = run-Keeps (delete_account-Keeps R k x u p g)

    pub serve_all_kept : (rs : List Request) (w : World Tables) → R w.db (serve_all rs w).db
    unfolding serve_all
    serve_all_kept [] w = k.preorder.refl' w.db
    serve_all_kept (r ∷ rs) w =
        k.preorder.trans' w.db (serve r w).db (serve_all rs (serve r w)).db (serve_kept r w)
          (serve_all_kept rs (serve r w))
