-- ===== src/Auth/Frame/Account.antt =====
-- The passwords, the second factor and the account: internal/domain/auth/service, as in `Service`.
use firmflow.Base.{ℕ, String, Bool, Option, none, some, List, [], zero, suc}
use firmflow.Base.Int.{ℤ}
use firmflow.Store.{Keeps, keep_rules, pure-Keeps}
use firmflow.Model.{Tables, User, UserProfile}
use firmflow.Auth.History.{HistoryRelation}
use firmflow.Auth.External.{External}
use firmflow.Auth.Frame
use firmflow.Auth.Frame.Service
use firmflow.Auth.Service.Passwords.{
  change_password, confirmed_user, forgot_password, reset_password, send_reset,
}
use firmflow.Auth.Service.Account.{change_profile, delete_account, grace_until}
use firmflow.Auth.Service.TwoFactor.{
  begin_enable_2fa, confirm_enable_2fa, disable_2fa, new_recovery_codes,
}
use firmflow.Auth.Repository.{find_user_by_email, find_user_by_id, get_profile}
use firmflow.Auth.Repository.TwoFactor.{get_two_factor_by_user}

module _ (R : Tables → Tables → Type 0) (k : HistoryRelation R) where
  send_reset-Keeps : (x : External) (u : Option User) → Keeps R (send_reset x u)
  unfolding send_reset
  send_reset-Keeps x none = pure-Keeps k.preorder tt
  send_reset-Keeps x (some u) =
      search
        (
          keep_rules,
          k.preorder,
          Service.generate_secure_token-Keeps R k,
          Frame.create_reset_token-Keeps R k,
        )
        depth 14

  pub forgot_password-Keeps : (x : External) (m : List ℕ) → Keeps R (forgot_password x m)
  unfolding forgot_password find_user_by_email
  forgot_password-Keeps x m = search (keep_rules, k.preorder, send_reset-Keeps) depth 14

  pub reset_password-Keeps : (x : External) (t p : List ℕ) → Keeps R (reset_password x t p)
  unfolding reset_password
  reset_password-Keeps x t p =
      search
        (
          keep_rules,
          k.preorder,
          Service.require_strong-Keeps R k,
          Service.hash_password-Keeps R k,
          Frame.consume_reset_token-Keeps R k,
          Service.audit_user-Keeps R k,
        )
        depth 14

  confirmed_user-Keeps : (x : External) (u : ℕ) (p : List ℕ) → Keeps R (confirmed_user x u p)
  unfolding confirmed_user find_user_by_id
  confirmed_user-Keeps x u p = search (keep_rules, k.preorder) depth 14

  pub change_password-Keeps :
      (x : External) (u i : ℕ) (p q : List ℕ) → Keeps R (change_password x u i p q)
  unfolding change_password
  change_password-Keeps x u i p q =
      search
        (
          keep_rules,
          k.preorder,
          Service.require_strong-Keeps R k,
          confirmed_user-Keeps,
          Service.hash_password-Keeps R k,
          Frame.update_password-Keeps R k,
          Frame.revoke_all_other_sessions-Keeps R k,
          Service.audit_user-Keeps R k,
        )
        depth 14

  pub begin_enable_2fa-Keeps :
      (x : External) (u : ℕ) (p : List ℕ) → Keeps R (begin_enable_2fa x u p)
  unfolding begin_enable_2fa
  begin_enable_2fa-Keeps x u p =
      search
        (
          keep_rules,
          k.preorder,
          confirmed_user-Keeps,
          Service.draw-Keeps R k,
          Service.or_fail-Keeps R k,
          Frame.upsert_two_factor-Keeps R k,
        )
        depth 14

  new_recovery_codes-Keeps : (x : External) (n : ℕ) → Keeps R (new_recovery_codes x n)
  unfolding new_recovery_codes
  new_recovery_codes-Keeps x zero = pure-Keeps k.preorder []
  new_recovery_codes-Keeps x (suc n) =
      let rest = new_recovery_codes-Keeps x n in
      search (keep_rules, k.preorder, Service.generate_secure_token-Keeps R k, rest) depth 14

  pub confirm_enable_2fa-Keeps :
      (x : External) (u : ℕ) (c : List ℕ) → Keeps R (confirm_enable_2fa x u c)
  unfolding confirm_enable_2fa get_two_factor_by_user
  confirm_enable_2fa-Keeps x u c =
      search
        (
          keep_rules,
          k.preorder,
          Service.or_fail-Keeps R k,
          new_recovery_codes-Keeps,
          Frame.replace_recovery_codes-Keeps R k,
          Frame.mark_two_factor_enabled-Keeps R k,
        )
        depth 18

  pub disable_2fa-Keeps : (x : External) (u : ℕ) (p t r : List ℕ) → Keeps R (disable_2fa x u p t r)
  unfolding disable_2fa get_two_factor_by_user
  disable_2fa-Keeps x u p t r =
      search
        (
          keep_rules,
          k.preorder,
          confirmed_user-Keeps,
          Service.try_recovery_code-Keeps R k,
          Frame.disable_two_factor-Keeps R k,
        )
        depth 18

  pub change_profile-Keeps :
      (loc : String → Bool) (u : ℕ) (p : UserProfile) → Keeps R (change_profile loc u p)
  unfolding change_profile get_profile
  change_profile-Keeps loc u p =
      search (keep_rules, k.preorder, Frame.update_profile-Keeps R k) depth 16

  grace_until-Keeps : (g : ℤ) → Keeps R (grace_until g)
  unfolding grace_until
  grace_until-Keeps g = search (keep_rules, k.preorder) depth 12

  pub delete_account-Keeps :
      (x : External) (u : ℕ) (p : List ℕ) (g : ℤ) → Keeps R (delete_account x u p g)
  unfolding delete_account
  delete_account-Keeps x u p g =
      search
        (
          keep_rules,
          k.preorder,
          confirmed_user-Keeps,
          grace_until-Keeps,
          Frame.soft_delete_user-Keeps R k,
          Service.audit_user-Keeps R k,
        )
        depth 14
