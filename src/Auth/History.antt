-- ===== src/Auth/History.antt =====
-- What a session and a single-use token never lose, and the relations on the tables that the
-- statements of internal/domain/auth/repository keep for that reason.
pub mod Relations
use firmflow.Base.{String, Bool, true, false, ◌≡◌, refl, is_none, any, str_eq, ◌&&◌}
use firmflow.Store.{IsPreorder}
use firmflow.Model.{AuthSession, SingleUseToken, Tables, update_where, insert_row}

-- The same session; once it is revoked, for ever and with the same stamp.
pub record SessionFate (a b : AuthSession) : Type 0 where
  pub same_id : b.id ≡ a.id
  pub same_user : b.user_id ≡ a.user_id
  pub same_hash : b.refresh_token_hash ≡ a.refresh_token_hash
  pub same_expiry : b.expires_at ≡ a.expires_at
  pub still_revoked : is_none a.revoked_at ≡ false → b.revoked_at ≡ a.revoked_at

pub SessionFate-refl : (a : AuthSession) → SessionFate a a
SessionFate-refl a = record {
  same_id = refl;
  same_user = refl;
  same_hash = refl;
  same_expiry = refl;
  still_revoked = λ h. refl;
}

-- The same token; once it is consumed, for ever.
pub record TokenFate (a b : SingleUseToken) : Type 0 where
  pub same_id : b.id ≡ a.id
  pub same_user : b.user_id ≡ a.user_id
  pub same_hash : b.token_hash ≡ a.token_hash
  pub same_expiry : b.expires_at ≡ a.expires_at
  pub still_consumed : is_none a.consumed_at ≡ false → is_none b.consumed_at ≡ false

pub TokenFate-refl : (a : SingleUseToken) → TokenFate a a
TokenFate-refl a = record {
  same_id = refl;
  same_user = refl;
  same_hash = refl;
  same_expiry = refl;
  still_consumed = λ h. h;
}

-- A row with this refresh token, and one that is open.
abbrev pub has_refresh_hash : String → AuthSession → Bool
has_refresh_hash hash s = str_eq s.refresh_token_hash hash

abbrev pub open_with_hash : String → AuthSession → Bool
open_with_hash hash s = str_eq s.refresh_token_hash hash && is_none s.revoked_at

abbrev pub has_token_hash : String → SingleUseToken → Bool
has_token_hash hash r = str_eq r.token_hash hash

-- A relation that holds when the three tables are the same, when their rows meet their fates, and
-- when a row comes in whose hash is not there yet.
pub record HistoryRelation (R : Tables → Tables → Type 0) : Type 0 where
  pub preorder : IsPreorder R
  pub by_same :
      (t u : Tables)
      → u.auth_sessions ≡ t.auth_sessions
      → u.email_verification_tokens ≡ t.email_verification_tokens
      → u.password_reset_tokens ≡ t.password_reset_tokens
      → R t u
  pub by_sessions :
      (t : Tables) (p : AuthSession → Bool) (f : AuthSession → AuthSession)
      → ((s : AuthSession) → p s ≡ true → SessionFate s (f s))
      → R t (record t { auth_sessions = update_where p f t.auth_sessions })
  pub by_new_session :
      (t : Tables) (s : AuthSession)
      → any (has_refresh_hash s.refresh_token_hash) t.auth_sessions ≡ false
      → R t (record t { auth_sessions = insert_row s t.auth_sessions })
  pub by_email_tokens :
      (t : Tables) (p : SingleUseToken → Bool) (f : SingleUseToken → SingleUseToken)
      → ((r : SingleUseToken) → p r ≡ true → TokenFate r (f r))
      → R t (record t { email_verification_tokens = update_where p f t.email_verification_tokens })
  pub by_new_email_token :
      (t : Tables) (r : SingleUseToken)
      → any (has_token_hash r.token_hash) t.email_verification_tokens ≡ false
      → R t (record t { email_verification_tokens = insert_row r t.email_verification_tokens })
  pub by_reset_tokens :
      (t : Tables) (p : SingleUseToken → Bool) (f : SingleUseToken → SingleUseToken)
      → ((r : SingleUseToken) → p r ≡ true → TokenFate r (f r))
      → R t (record t { password_reset_tokens = update_where p f t.password_reset_tokens })
  pub by_new_reset_token :
      (t : Tables) (r : SingleUseToken)
      → any (has_token_hash r.token_hash) t.password_reset_tokens ≡ false
      → R t (record t { password_reset_tokens = insert_row r t.password_reset_tokens })

-- The revocations.
pub revoked_at_once :
    (s : AuthSession) (v : AuthSession)
    → v.id ≡ s.id
    → v.user_id ≡ s.user_id
    → v.refresh_token_hash ≡ s.refresh_token_hash
    → v.expires_at ≡ s.expires_at
    → is_none s.revoked_at ≡ true
    → SessionFate s v
revoked_at_once s v i u h e n = record {
  same_id = i;
  same_user = u;
  same_hash = h;
  same_expiry = e;
  still_revoked = λ f. absurd (cc (n, f));
}
