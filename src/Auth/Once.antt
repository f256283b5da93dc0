-- ===== src/Auth/Once.antt =====
-- A refresh token is exchanged once: `Refresh` of internal/domain/auth/service/service.go, with
-- `RotateSession` of the repository. `Reset` and `Replay` have the reset tokens and the theorems.
pub mod Tokens
pub mod Replay
use firmflow.Base.{
  ℕ, String, Bool, true, false, not, ◌&&◌, ◌≡◌, refl, ap, ◌∙◌, List, [], ◌∷◌, is_none, any, str_eq,
  find?, ◌==◌, Bool-cases, inl, inr, arith, some,
}
use firmflow.Store.Triple.{triple, weaken-Triple, bind-Triple, pure-Triple, now-Triple}
use firmflow.Store.Partial.{
  Returns, exec-Returns, transaction-Returns, catch-Returns, first-Returns, Keeps-Returns,
}
use firmflow.Model.{AuthSession, Tables}
use firmflow.Auth.History.{HistoryRelation, has_refresh_hash}
use firmflow.Auth.History.Relations.{sessions_keep}
use firmflow.Auth.Spent.{Spent, Unique, Spent-update, Spent-insert, Unique-update, Unique-insert}
use firmflow.Auth.Repository.Sessions.{
  SessionMeta, NewSession, get_session_by_refresh_hash, rotate_session, open_session, refreshable,
}
use firmflow.Auth.Service.{refresh}
use firmflow.Auth.External.{AuthConfig, External}
use firmflow.Auth.Frame.{create_session-Keeps}
use firmflow.Auth.Frame.Service.{token_pair-Keeps, new_session-Keeps, generate_secure_token-Keeps}
use firmflow.Auth.Spent.Found.{not_id, Only, found-Only, shut-Spent}

abbrev pub session_hash : AuthSession → String
session_hash s = s.refresh_token_hash

abbrev pub is_open : AuthSession → Bool
is_open s = is_none s.revoked_at

-- No session of a refresh token is open any more.
abbrev pub SessionSpent : String → Tables → Type 0
SessionSpent h t = Spent session_hash is_open h t.auth_sessions

abbrev pub SessionUnique : String → Tables → Type 0
SessionUnique h t = Unique session_hash is_open h t.auth_sessions

pub session_spent : (h : String) → HistoryRelation (λ t u. SessionSpent h t → SessionSpent h u)
session_spent h =
    sessions_keep (Spent session_hash is_open h)
      (λ p f fate.
        Spent-update session_hash is_open h p f (λ s e. (fate s e).same_hash)
          (λ s e shut. ap is_none ((fate s e).still_revoked shut) ∙ shut))
      (λ s. Spent-insert session_hash is_open h s)

pub session_unique : (h : String) → HistoryRelation (λ t u. SessionUnique h t → SessionUnique h u)
session_unique h =
    sessions_keep (Unique session_hash is_open h)
      (λ p f fate. Unique-update session_hash is_open h p f (λ s e. (fate s e).same_hash))
      (λ s. Unique-insert session_hash is_open h s)

abbrev session_id : AuthSession → ℕ
session_id s = s.id

abbrev OnlySession : String → ℕ → Tables → Type 0
OnlySession h id t = Only session_hash is_open session_id h id t.auth_sessions

session_only :
    (h : String) (id : ℕ) → HistoryRelation (λ t u. OnlySession h id t → OnlySession h id u)
session_only h id =
    sessions_keep (Only session_hash is_open session_id h id)
      (λ p f fate.
        Spent-update session_hash (not_id session_hash is_open session_id id) h p f
          (λ s e. (fate s e).same_hash)
          (λ s e other. ap (λ i. not (i == id)) (fate s e).same_id ∙ other))
      (λ s. Spent-insert session_hash (not_id session_hash is_open session_id id) h s)

refreshable_has :
    (h : String) (at : ℕ) (s : AuthSession)
    → refreshable h at s ≡ true
    → has_refresh_hash h s ≡ true
refreshable_has h at s e = ground arith

id_and_open :
    (id : ℕ) (s : AuthSession)
    → (s.id == id) ≡ true
    → is_none s.revoked_at ≡ true
    → open_session id s ≡ true
id_and_open id s e f = rw (e, f) refl

current_found :
    (h : String)
    → Returns (SessionUnique h) (get_session_by_refresh_hash h) (λ c. OnlySession h c.id)
unfolding get_session_by_refresh_hash
current_found h = bind-Triple _ _ now-Triple (λ at.
    weaken-Triple
      (λ c t p.
        found-Only session_hash is_open session_id h (refreshable h at) (refreshable_has h at) c
          t.auth_sessions p.1 p.0)
      (first-Returns _))

rotated :
    (h : String) (id : ℕ) (s : NewSession)
    → Returns (OnlySession h id) (rotate_session id s) (λ n. SessionSpent h)
unfolding rotate_session
rotated h id s = transaction-Returns _ (
    bind-Triple _ _
      (Keeps-Returns (OnlySession h id) (λ t u k. k) _
        (create_session-Keeps _ (session_only h id) s))
      (λ n. bind-Triple _ _ now-Triple (λ at.
        bind-Triple _ _
          (exec-Returns _ (λ t o.
            shut-Spent session_hash is_open session_id h id (open_session id) _ (id_and_open id)
              (λ r. refl) (λ r. refl) t.auth_sessions o))
          (λ u. pure-Triple n (λ t p. p)))))

pub refresh_spends :
    (x : External) (cfg : AuthConfig) (token : List ℕ) (meta : SessionMeta)
    → Returns
        (SessionUnique (x.hash_token token))
        (refresh x cfg token meta)
        (λ pair. SessionSpent (x.hash_token token))
unfolding refresh
refresh_spends x cfg token meta =
    let h = x.hash_token token in
    bind-Triple _ _ (catch-Returns _ _ (current_found h)) (λ c.
      bind-Triple _ _
        (Keeps-Returns (OnlySession h c.id) (λ t u k. k) _
          (generate_secure_token-Keeps _ (session_only h c.id) x))
        (λ new_token.
          bind-Triple _ _
            (Keeps-Returns (OnlySession h c.id) (λ t u k. k) _
              (new_session-Keeps _ (session_only h c.id) x cfg c.user_id meta new_token))
            (λ s. bind-Triple _ _ (rotated h c.id s) (λ id.
              Keeps-Returns (SessionSpent h) (λ t u k. k) _
                (token_pair-Keeps _ (session_spent h) x cfg c.user_id id new_token)))))

-- A lookup of a spent refresh token finds nothing.
nothing_open :
    (h : String) (at : ℕ) (c : AuthSession) (xs : List AuthSession)
    → any (λ s. str_eq s.refresh_token_hash h && is_none s.revoked_at) xs ≡ false
    → find? (refreshable h at) xs ≡ some c
    → ⊥
nothing_open h at c [] e f = cc f
nothing_open h at c (x ∷ xs) e f = elim (Bool-cases (refreshable h at x)) [
  | inl g ↦ ground arith
  | inr g ↦ nothing_open h at c xs (ground arith) (rw g at f)
]

nothing_found : (h : String) → Returns (SessionSpent h) (get_session_by_refresh_hash h) (λ c t. ⊥)
unfolding get_session_by_refresh_hash
nothing_found h = bind-Triple _ _ now-Triple (λ at.
    weaken-Triple (λ c t p. nothing_open h at c t.auth_sessions p.0.none_open p.1)
      (first-Returns _))

pub refresh_refused :
    (x : External) (cfg : AuthConfig) (token : List ℕ) (meta : SessionMeta)
    → Returns (SessionSpent (x.hash_token token)) (refresh x cfg token meta) (λ pair t. ⊥)
unfolding refresh
refresh_refused x cfg token meta =
    bind-Triple _ _ (catch-Returns _ _ (nothing_found (x.hash_token token)))
      (λ c. triple λ w p. absurd p)
