-- ===== src/Auth/Frame.antt =====
-- What the statements of internal/domain/auth/repository keep: each is a composition of reads and of
-- the writes that a history relation allows. `Service` has the operations above them.
pub mod Service
pub mod Account
use firmflow.Base.{
  [], none, is_none, ◌==◌, some, ◌∷◌, ℕ, String, Bool, true, ◌≡◌, refl, List, Option, arith,
}
use firmflow.Store.{Keeps, keep_rules, exec-Keeps, exec_unique-Keeps, exec_unique-Keeps_fresh}
use firmflow.Model.{AuthThrottle, UserProfile, AuthSession, SingleUseToken, Tables, User}
use firmflow.Db.{append_audit_log}
use firmflow.Auth.History.{HistoryRelation, SessionFate, TokenFate, revoked_at_once}
use firmflow.Auth.Repository.{
  create_user_with_profile, update_user, update_password, create_email_verification_token,
  create_reset_token, consume_email_verification_token, update_sessions, open_of_user,
  revoked_session, consumed,
}
use firmflow.Auth.Repository.TwoFactor.{
  consume_recovery_code, disable_two_factor, insert_recovery_codes, mark_two_factor_enabled,
  replace_recovery_codes, upsert_two_factor,
}
use firmflow.Auth.Repository.Sessions.{
  NewSession, open_session, other_open_session, create_session, revoke_all_other_sessions,
  revoke_session_row, rotate_session,
}
use firmflow.Auth.Repository.{
  consume_reset_token_and_set_password, soft_delete_user, update_profile,
}
use firmflow.Auth.Repository.Throttle.{create_or_increment_throttle, reset_throttle, save_throttle}
use firmflow.Base.{◌&&◌}
use firmflow.Auth.External.{External}

pub open_sessions :
    (user_id at : ℕ) (s : AuthSession)
    → open_of_user user_id s ≡ true
    → SessionFate s (revoked_session at s)
open_sessions user_id at s h = revoked_at_once s _ refl refl refl refl (ground arith)

open_and : (a b : Bool) → (a && b) ≡ true → b ≡ true
open_and a b h = ground arith

token_consumed : (at : ℕ) (r : SingleUseToken) → TokenFate r (consumed at r)
token_consumed at r = record {
  same_id = refl;
  same_user = refl;
  same_hash = refl;
  same_expiry = refl;
  still_consumed = λ h. refl;
}

module _ (R : Tables → Tables → Type 0) (k : HistoryRelation R) where
  pub append_audit_log-Keeps :
      (a : Option ℕ) (e t : String) (i : ℕ) → Keeps R (append_audit_log a e t i)
  unfolding append_audit_log
  append_audit_log-Keeps a e t i = search (keep_rules, k.preorder, exec-Keeps, k.by_same) depth 12

  pub create_user_with_profile-Keeps :
      (m : List ℕ) (h : String) → Keeps R (create_user_with_profile m h)
  unfolding create_user_with_profile
  create_user_with_profile-Keeps m h =
      search (keep_rules, k.preorder, exec_unique-Keeps, k.by_same) depth 16

  pub update_user-Keeps : (i : ℕ) (f : User → User) → Keeps R (update_user i f)
  unfolding update_user
  update_user-Keeps i f = search (keep_rules, k.preorder, exec-Keeps, k.by_same) depth 12

  pub update_password-Keeps : (i : ℕ) (h : String) → Keeps R (update_password i h)
  unfolding update_password
  update_password-Keeps i h = search (keep_rules, k.preorder, update_user-Keeps) depth 12

  pub create_email_verification_token-Keeps :
      (i : ℕ) (h : String) (e : ℕ) → Keeps R (create_email_verification_token i h e)
  unfolding create_email_verification_token
  create_email_verification_token-Keeps i h e =
      search (keep_rules, k.preorder, exec_unique-Keeps_fresh, k.by_new_email_token) depth 12

  pub create_reset_token-Keeps : (i : ℕ) (h : String) (e : ℕ) → Keeps R (create_reset_token i h e)
  unfolding create_reset_token
  create_reset_token-Keeps i h e =
      search (keep_rules, k.preorder, exec_unique-Keeps_fresh, k.by_new_reset_token) depth 12

  pub update_sessions-Keeps :
      (p : AuthSession → Bool) (f : AuthSession → AuthSession)
      → ((s : AuthSession) → p s ≡ true → SessionFate s (f s))
      → Keeps R (update_sessions p f)
  unfolding update_sessions
  update_sessions-Keeps p f h = exec-Keeps k.preorder _ (λ t. k.by_sessions t p f h)

  pub consume_email_verification_token-Keeps :
      (h : String) → Keeps R (consume_email_verification_token h)
  unfolding consume_email_verification_token
  consume_email_verification_token-Keeps h =
      search
        (
          keep_rules,
          k.preorder,
          exec-Keeps,
          k.by_email_tokens,
          update_user-Keeps,
          λ (at : ℕ) (r : SingleUseToken). token_consumed at r,
        )
        depth 16

  pub consume_reset_token-Keeps :
      (h p : String) → Keeps R (consume_reset_token_and_set_password h p)
  unfolding consume_reset_token_and_set_password
  consume_reset_token-Keeps h p =
      search
        (
          keep_rules,
          k.preorder,
          exec-Keeps,
          k.by_reset_tokens,
          update_user-Keeps,
          update_sessions-Keeps,
          open_sessions,
          λ (at : ℕ) (r : SingleUseToken). token_consumed at r,
        )
        depth 20

  pub soft_delete_user-Keeps : (i : ℕ) (g : Option ℕ) → Keeps R (soft_delete_user i g)
  unfolding soft_delete_user
  soft_delete_user-Keeps i g =
      search (keep_rules, k.preorder, update_user-Keeps, update_sessions-Keeps, open_sessions) depth
        16

  pub update_profile-Keeps : (p : UserProfile) → Keeps R (update_profile p)
  unfolding update_profile
  update_profile-Keeps p = search (keep_rules, k.preorder, exec-Keeps, k.by_same) depth 12

  pub create_session-Keeps : (s : NewSession) → Keeps R (create_session s)
  unfolding create_session
  create_session-Keeps s =
      search (keep_rules, k.preorder, exec_unique-Keeps_fresh, k.by_new_session) depth 12

  pub revoke_session_row-Keeps : (i : ℕ) → Keeps R (revoke_session_row i)
  unfolding revoke_session_row
  revoke_session_row-Keeps i =
      search
        (
          keep_rules,
          k.preorder,
          exec-Keeps,
          k.by_sessions,
          λ (at : ℕ) (s : AuthSession) (h : open_session i s ≡ true).
              revoked_at_once s
                (record s { revoked_at = some at; last_seen_at = at; updated_at = at }) refl refl
                refl refl (open_and (s.id == i) (is_none s.revoked_at) h),
        )
        depth 12

  pub rotate_session-Keeps : (i : ℕ) (s : NewSession) → Keeps R (rotate_session i s)
  unfolding rotate_session
  rotate_session-Keeps i s =
      search
        (
          keep_rules,
          k.preorder,
          exec-Keeps,
          k.by_sessions,
          create_session-Keeps,
          λ (n at : ℕ) (s : AuthSession) (h : open_session i s ≡ true).
              revoked_at_once s
                (record s {
                  revoked_at = some at;
                  replaced_by_session_id = some n;
                  updated_at = at;
                })
                refl refl refl refl (open_and (s.id == i) (is_none s.revoked_at) h),
        )
        depth 14

  pub revoke_all_other_sessions-Keeps : (u i : ℕ) → Keeps R (revoke_all_other_sessions u i)
  unfolding revoke_all_other_sessions
  revoke_all_other_sessions-Keeps u i =
      search
        (
          keep_rules,
          k.preorder,
          exec-Keeps,
          k.by_sessions,
          λ (at : ℕ) (s : AuthSession) (h : other_open_session u i s ≡ true).
              revoked_at_once s (revoked_session at s) refl refl refl refl (ground arith),
        )
        depth 12

  save_throttle-Keeps :
      (at w m : ℕ) (key : List ℕ) (r : Option AuthThrottle) → Keeps R (save_throttle at w m key r)
  unfolding save_throttle
  save_throttle-Keeps at w m key none =
      search (keep_rules, k.preorder, exec_unique-Keeps, k.by_same) depth 12
  save_throttle-Keeps at w m key (some r) =
      search (keep_rules, k.preorder, exec-Keeps, k.by_same) depth 12

  pub create_or_increment_throttle-Keeps :
      (x : External) (m : List ℕ) (w n : ℕ) → Keeps R (create_or_increment_throttle x m w n)
  unfolding create_or_increment_throttle
  create_or_increment_throttle-Keeps x m w n =
      search (keep_rules, k.preorder, save_throttle-Keeps) depth 12

  pub reset_throttle-Keeps : (x : External) (m : List ℕ) → Keeps R (reset_throttle x m)
  unfolding reset_throttle
  reset_throttle-Keeps x m = search (keep_rules, k.preorder, exec-Keeps, k.by_same) depth 12

  pub upsert_two_factor-Keeps : (u : ℕ) (s : String) → Keeps R (upsert_two_factor u s)
  unfolding upsert_two_factor
  upsert_two_factor-Keeps u s =
      search (keep_rules, k.preorder, exec-Keeps, exec_unique-Keeps, k.by_same) depth 14

  insert_recovery_codes-Keeps : (i : ℕ) (hs : List String) → Keeps R (insert_recovery_codes i hs)
  unfolding insert_recovery_codes
  insert_recovery_codes-Keeps i [] = search (keep_rules, k.preorder) depth 12
  insert_recovery_codes-Keeps i (h ∷ hs) =
      let rest = insert_recovery_codes-Keeps i hs in
      search (keep_rules, k.preorder, exec_unique-Keeps, k.by_same, rest) depth 14

  pub replace_recovery_codes-Keeps :
      (i : ℕ) (hs : List String) → Keeps R (replace_recovery_codes i hs)
  unfolding replace_recovery_codes
  replace_recovery_codes-Keeps i hs =
      search (keep_rules, k.preorder, exec-Keeps, k.by_same, insert_recovery_codes-Keeps) depth 14

  pub mark_two_factor_enabled-Keeps : (u : ℕ) → Keeps R (mark_two_factor_enabled u)
  unfolding mark_two_factor_enabled
  mark_two_factor_enabled-Keeps u =
      search (keep_rules, k.preorder, exec-Keeps, k.by_same, update_user-Keeps) depth 14

  pub consume_recovery_code-Keeps : (i : ℕ) (h : String) → Keeps R (consume_recovery_code i h)
  unfolding consume_recovery_code
  consume_recovery_code-Keeps i h = search (keep_rules, k.preorder, exec-Keeps, k.by_same) depth 14

  pub disable_two_factor-Keeps : (u : ℕ) → Keeps R (disable_two_factor u)
  unfolding disable_two_factor
  disable_two_factor-Keeps u =
      search (keep_rules, k.preorder, exec-Keeps, k.by_same, update_user-Keeps) depth 16
