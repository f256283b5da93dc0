-- ===== src/Auth/Once/Replay.antt =====
-- No replay: a token that was used is refused for good, whatever is called in between, with any
-- failures of the database: internal/domain/auth/service/service.go.
use firmflow.Base.{ℕ, String, Bool, ◌≡◌, List}
use firmflow.Store.{World, ok}
use firmflow.Store.Triple.{bind-Triple, triple}
use firmflow.Store.Partial.{Keeps-Returns, catch-Returns, Returns, run-Returns}
use firmflow.Model.{Tables}
use firmflow.Auth.Frame.Service
use firmflow.Auth.External.{AuthConfig, External}
use firmflow.Auth.Service.{TokenPair, verify_email}
use firmflow.Auth.Service.Passwords.{reset_password}
use firmflow.Auth.Once.Tokens.{
  consume_reset_refused, consume_reset_spends, email_spent, consume_email_refused,
  consume_email_spends, reset_spent, reset_unique, TokenSpent, TokenUnique,
}
use firmflow.Auth.Repository.Sessions.{SessionMeta}
use firmflow.Auth.Requests.{serve_all_kept, serve_all, Request}
use firmflow.Auth.History.Relations.{histories, Histories}
use firmflow.Auth.Once.{
  refresh_refused, session_spent, refresh_spends, pure-Triple, refresh, SessionUnique,
}

module _ (x : External) (token : List ℕ) where
  reset_spends :
      (p : List ℕ)
      → Returns
          (λ t. TokenUnique (x.hash_token token) t.password_reset_tokens)
          (reset_password x token p)
          (λ u t. TokenSpent (x.hash_token token) t.password_reset_tokens)
  unfolding reset_password
  reset_spends p =
      let h = x.hash_token token in
      bind-Triple _ _
        (Keeps-Returns (λ t. TokenUnique h t.password_reset_tokens) (λ t u k. k) _
          (Service.require_strong-Keeps _ (reset_unique h) p))
        (λ u.
          bind-Triple _ _
            (Keeps-Returns (λ t. TokenUnique h t.password_reset_tokens) (λ t u k. k) _
              (Service.hash_password-Keeps _ (reset_unique h) x p))
            (λ hash. bind-Triple _ _ (catch-Returns _ _ (consume_reset_spends h hash)) (λ user.
              Keeps-Returns (λ t. TokenSpent h t.password_reset_tokens) (λ t u k. k) _
                (Service.audit_user-Keeps _ (reset_spent h) user _))))

  reset_refused :
      (p : List ℕ)
      → Returns
          (λ t. TokenSpent (x.hash_token token) t.password_reset_tokens)
          (reset_password x token p)
          (λ u t. ⊥)
  unfolding reset_password
  reset_refused p =
      let h = x.hash_token token in
      bind-Triple _ _
        (Keeps-Returns (λ t. TokenSpent h t.password_reset_tokens) (λ t u k. k) _
          (Service.require_strong-Keeps _ (reset_spent h) p))
        (λ u.
          bind-Triple _ _
            (Keeps-Returns (λ t. TokenSpent h t.password_reset_tokens) (λ t u k. k) _
              (Service.hash_password-Keeps _ (reset_spent h) x p))
            (λ hash.
              bind-Triple _ _ (catch-Returns _ _ (consume_reset_refused h hash))
                (λ user. triple λ w e. absurd e)))

  verify_spends :
      Returns
        (λ t. TokenUnique (x.hash_token token) t.email_verification_tokens)
        (verify_email x token)
        (λ u t. TokenSpent (x.hash_token token) t.email_verification_tokens)
  unfolding verify_email
  verify_spends =
      bind-Triple _ _ (catch-Returns _ _ (consume_email_spends (x.hash_token token)))
        (λ u. pure-Triple tt (λ t e. e))

  verify_refused :
      Returns
        (λ t. TokenSpent (x.hash_token token) t.email_verification_tokens)
        (verify_email x token)
        (λ u t. ⊥)
  unfolding verify_email
  verify_refused =
      bind-Triple _ _ (catch-Returns _ _ (consume_email_refused (x.hash_token token)))
        (λ u. triple λ w e. absurd e)

module _ (x : External) (cfg : AuthConfig) (is_location : String → Bool) where
  -- Any sequence of calls of the account service, with any failures of the database, keeps every
  -- session and every token for an address or a new password in its place, with its owner, hash
  -- and expiry; a revoked session stays revoked with the same stamp, a consumed token stays
  -- consumed; rows are only added, behind the others.
  pub serve_all-Histories :
      (rs : List Request) (w : World Tables) → Histories w.db (serve_all x cfg is_location rs w).db
  serve_all-Histories = serve_all_kept x cfg is_location Histories histories

  -- A refresh token that was exchanged is refused from then on: where one session at most has its
  -- hash, no call of `Refresh` with it returns a token pair, whatever was called in between.
  pub refresh_once :
      (token : List ℕ) (meta meta' : SessionMeta) (rs : List Request) (w : World Tables)
      (pair pair' : TokenPair)
      → SessionUnique (x.hash_token token) w.db
      → (refresh x cfg token meta w).0 ≡ ok pair
      → ¬ (
          (refresh x cfg token meta'
            (serve_all x cfg is_location rs (refresh x cfg token meta w).1)).0
          ≡ ok pair')
  refresh_once token meta meta' rs w pair pair' one e f =
      let h = x.hash_token token in
      let spent = run-Returns (refresh_spends x cfg token meta) w one pair e in
      let still =
        serve_all_kept x cfg is_location _ (session_spent h) rs (refresh x cfg token meta w).1
          spent in
      run-Returns (refresh_refused x cfg token meta') _ still pair' f

  -- A reset token that set a password is refused from then on: where one row at most has its hash,
  -- no call of `ResetPassword` with it succeeds, whatever was called in between.
  pub reset_password_once :
      (token password password' : List ℕ) (rs : List Request) (w : World Tables)
      → TokenUnique (x.hash_token token) w.db.password_reset_tokens
      → (reset_password x token password w).0 ≡ ok tt
      → ¬ (
          (reset_password x token password'
            (serve_all x cfg is_location rs (reset_password x token password w).1)).0
          ≡ ok tt)
  reset_password_once token p q rs w one e f =
      let h = x.hash_token token in
      let spent = run-Returns (reset_spends x token p) w one tt e in
      let still =
        serve_all_kept x cfg is_location _ (reset_spent h) rs (reset_password x token p w).1
          spent in
      run-Returns (reset_refused x token q) _ still tt f

  -- A token that verified an address is refused from then on: where one row at most has its hash,
  -- no call of `VerifyEmail` with it succeeds, whatever was called in between.
  pub verify_email_once :
      (token : List ℕ) (rs : List Request) (w : World Tables)
      → TokenUnique (x.hash_token token) w.db.email_verification_tokens
      → (verify_email x token w).0 ≡ ok tt
      → ¬ (
          (verify_email x token (serve_all x cfg is_location rs (verify_email x token w).1)).0
          ≡ ok tt)
  verify_email_once token rs w one e f =
      let h = x.hash_token token in
      let spent = run-Returns (verify_spends x token) w one tt e in
      let still =
        serve_all_kept x cfg is_location _ (email_spent h) rs (verify_email x token w).1 spent in
      run-Returns (verify_refused x token) _ still tt f
