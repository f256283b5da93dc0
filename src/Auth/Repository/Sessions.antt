-- ===== src/Auth/Repository/Sessions.antt =====
-- The sessions: `CreateSession`, `GetSessionByRefreshHash`, `RotateSession` and the revocations.
use firmflow.Base.{
  ℕ, String, Bool, not, ◌&&◌, none, some, is_none, List, ◌==◌, ltb, str_eq, any, find?, filter,
}
use firmflow.Store.{◌>>=◌, ◌>>◌, pure, now, new_uuid, query, exec, exec_unique, transaction, first}
use firmflow.Model.{AuthSession, update_where, insert_row}
use firmflow.Db.{Db}

-- `SessionMeta`.
pub record SessionMeta : Type 0 where
  pub user_agent : String
  pub ip : String

-- The columns of a session that its creator sets.
pub record NewSession : Type 0 where
  pub user_id : ℕ
  pub refresh_token_hash : String
  pub expires_at : ℕ
  pub meta : SessionMeta
  pub last_seen_at : ℕ

abbrev pub session_row : ℕ → ℕ → NewSession → AuthSession
session_row id at s = record {
  id = id;
  user_id = s.user_id;
  refresh_token_hash = s.refresh_token_hash;
  expires_at = s.expires_at;
  user_agent = s.meta.user_agent;
  ip = s.meta.ip;
  last_seen_at = s.last_seen_at;
  revoked_at = none;
  replaced_by_session_id = none;
  created_at = at;
  updated_at = at;
}

-- `Create(session)`, with the id that `BeforeCreate` draws.
unfoldable pub create_session : NewSession → Db ℕ
create_session s = do
  id ← new_uuid
  at ← now
  exec_unique (λ t. any (λ r. str_eq r.refresh_token_hash s.refresh_token_hash) t.auth_sessions)
      λ t. (record t { auth_sessions = insert_row (session_row id at s) t.auth_sessions }, tt)
  pure id

-- `refresh_token_hash = ? AND revoked_at IS NULL AND expires_at > ?`.
abbrev pub refreshable : String → ℕ → AuthSession → Bool
refreshable hash at s =
    str_eq s.refresh_token_hash hash && (is_none s.revoked_at && ltb at s.expires_at)

unfoldable pub get_session_by_refresh_hash : String → Db AuthSession
get_session_by_refresh_hash hash = do
  at ← now
  first λ t. find? (refreshable hash at) t.auth_sessions

abbrev pub open_session : ℕ → AuthSession → Bool
open_session session_id s = (s.id == session_id) && is_none s.revoked_at

unfoldable pub revoke_session_row : ℕ → Db (Unit {0})
revoke_session_row session_id = do
  at ← now
  exec λ t. (
    record t {
      auth_sessions =
          update_where (open_session session_id)
            (λ s. record s { revoked_at = some at; last_seen_at = at; updated_at = at })
            t.auth_sessions;
    },
    tt,
  )

unfoldable pub rotate_session : ℕ → NewSession → Db ℕ
unfolding create_session
rotate_session old_session_id new_session = transaction do
  new_id ← create_session new_session
  at ← now
  exec λ t. (
    record t {
      auth_sessions =
          update_where (open_session old_session_id)
            (λ s. record s {
              revoked_at = some at;
              replaced_by_session_id = some new_id;
              updated_at = at;
            })
            t.auth_sessions;
    },
    tt,
  )
  pure new_id

abbrev pub other_open_session : ℕ → ℕ → AuthSession → Bool
other_open_session user_id current_session_id s =
    (s.user_id == user_id) && (not (s.id == current_session_id) && is_none s.revoked_at)

unfoldable pub revoke_all_other_sessions : ℕ → ℕ → Db (Unit {0})
revoke_all_other_sessions user_id current_session_id = do
  at ← now
  exec λ t. (
    record t {
      auth_sessions =
          update_where (other_open_session user_id current_session_id)
            (λ s. record s { revoked_at = some at; updated_at = at }) t.auth_sessions;
    },
    tt,
  )

-- The order, newest first, is the database's and is left out: callers look for an id.
unfoldable pub list_active_sessions : ℕ → Db (List AuthSession)
list_active_sessions user_id =
    query (λ t. filter (λ s. (s.user_id == user_id) && is_none s.revoked_at) t.auth_sessions)
