-- ===== src/Auth/History/Relations.antt =====
-- The history relations: the rows never lose what they are, a hash stays unique, and one whose rows
-- were all used stays used.
use firmflow.Base.{Bool, true, false, ◌≡◌, refl, sym, ap, subst, ◌∙◌, List, is_none, any}
use firmflow.Base.Grows.{Grows, Grows-refl, Grows-trans, Grows-append}
use firmflow.Model.{
  AuthSession, SingleUseToken, Tables, update_where, update_where-Grows, insert_row,
}
use firmflow.Auth.History.{
  SessionFate-refl, TokenFate-refl, has_refresh_hash, has_token_hash, HistoryRelation, SessionFate,
  TokenFate,
}

SessionFate-trans : (a b c : AuthSession) → SessionFate a b → SessionFate b c → SessionFate a c
SessionFate-trans a b c h k = record {
  same_id = k.same_id ∙ h.same_id;
  same_user = k.same_user ∙ h.same_user;
  same_hash = k.same_hash ∙ h.same_hash;
  same_expiry = k.same_expiry ∙ h.same_expiry;
  still_revoked =
      λ r. let first = h.still_revoked r in k.still_revoked (ap is_none first ∙ r) ∙ first;
}

TokenFate-trans : (a b c : SingleUseToken) → TokenFate a b → TokenFate b c → TokenFate a c
TokenFate-trans a b c h k = record {
  same_id = k.same_id ∙ h.same_id;
  same_user = k.same_user ∙ h.same_user;
  same_hash = k.same_hash ∙ h.same_hash;
  same_expiry = k.same_expiry ∙ h.same_expiry;
  still_consumed = λ r. k.still_consumed (h.still_consumed r);
}

-- Every row of the three tables keeps its place and meets its fate; rows come in behind them.
pub record Histories (t u : Tables) : Type 0 where
  pub sessions : Grows SessionFate t.auth_sessions u.auth_sessions
  pub email_tokens : Grows TokenFate t.email_verification_tokens u.email_verification_tokens
  pub reset_tokens : Grows TokenFate t.password_reset_tokens u.password_reset_tokens

all_sessions : (xs : List AuthSession) → Grows SessionFate xs xs
all_sessions = Grows-refl SessionFate SessionFate-refl

all_tokens : (xs : List SingleUseToken) → Grows TokenFate xs xs
all_tokens = Grows-refl TokenFate TokenFate-refl

Histories-same :
    (t u : Tables)
    → u.auth_sessions ≡ t.auth_sessions
    → u.email_verification_tokens ≡ t.email_verification_tokens
    → u.password_reset_tokens ≡ t.password_reset_tokens
    → Histories t u
Histories-same t u e f g = record {
  sessions = subst (Grows SessionFate t.auth_sessions) (sym e) (all_sessions t.auth_sessions);
  email_tokens =
      subst (Grows TokenFate t.email_verification_tokens) (sym f)
        (all_tokens t.email_verification_tokens);
  reset_tokens =
      subst (Grows TokenFate t.password_reset_tokens) (sym g) (all_tokens t.password_reset_tokens);
}

Histories-trans : (t u v : Tables) → Histories t u → Histories u v → Histories t v
Histories-trans t u v h k = record {
  sessions = Grows-trans SessionFate SessionFate-trans _ _ _ h.sessions k.sessions;
  email_tokens = Grows-trans TokenFate TokenFate-trans _ _ _ h.email_tokens k.email_tokens;
  reset_tokens = Grows-trans TokenFate TokenFate-trans _ _ _ h.reset_tokens k.reset_tokens;
}

pub histories : HistoryRelation Histories
histories = record {
  preorder = record { refl' = λ t. Histories-same t t refl refl refl; trans' = Histories-trans };
  by_same = Histories-same;
  by_sessions = λ t p f h. record {
    sessions = update_where-Grows SessionFate p f SessionFate-refl h t.auth_sessions;
    email_tokens = all_tokens t.email_verification_tokens;
    reset_tokens = all_tokens t.password_reset_tokens;
  };
  by_new_session = λ t s h. record {
    sessions = Grows-append SessionFate SessionFate-refl _ _;
    email_tokens = all_tokens t.email_verification_tokens;
    reset_tokens = all_tokens t.password_reset_tokens;
  };
  by_email_tokens = λ t p f h. record {
    sessions = all_sessions t.auth_sessions;
    email_tokens = update_where-Grows TokenFate p f TokenFate-refl h _;
    reset_tokens = all_tokens t.password_reset_tokens;
  };
  by_new_email_token = λ t s h. record {
    sessions = all_sessions t.auth_sessions;
    email_tokens = Grows-append TokenFate TokenFate-refl _ _;
    reset_tokens = all_tokens t.password_reset_tokens;
  };
  by_reset_tokens = λ t p f h. record {
    sessions = all_sessions t.auth_sessions;
    email_tokens = all_tokens t.email_verification_tokens;
    reset_tokens = update_where-Grows TokenFate p f TokenFate-refl h _;
  };
  by_new_reset_token = λ t s h. record {
    sessions = all_sessions t.auth_sessions;
    email_tokens = all_tokens t.email_verification_tokens;
    reset_tokens = Grows-append TokenFate TokenFate-refl _ _;
  };
}

-- What an update that respects the fates and an admitted row preserve of one table.
module _ (P : List AuthSession → Type 0)
    (by_update : (p : AuthSession → Bool) (f : AuthSession → AuthSession)
      → ((s : AuthSession) → p s ≡ true → SessionFate s (f s))
      → (xs : List AuthSession) → P xs
      → P (update_where p f xs))
    (by_insert : (s : AuthSession) (xs : List AuthSession)
      → any (has_refresh_hash s.refresh_token_hash) xs ≡ false
      → P xs
      → P (insert_row s xs)) where
  pub sessions_keep : HistoryRelation (λ t u. P t.auth_sessions → P u.auth_sessions)
  sessions_keep = record {
    preorder = record { refl' = λ t h. h; trans' = λ t u v h k x. k (h x) };
    by_same = λ t u e f g. subst P (sym e);
    by_sessions = λ t p f h. by_update p f h t.auth_sessions;
    by_new_session = λ t s e. by_insert s t.auth_sessions e;
    by_email_tokens = λ t p f h x. x;
    by_new_email_token = λ t r e x. x;
    by_reset_tokens = λ t p f h x. x;
    by_new_reset_token = λ t r e x. x;
  }

module _ (P : List SingleUseToken → Type 0)
    (by_update : (p : SingleUseToken → Bool) (f : SingleUseToken → SingleUseToken)
      → ((r : SingleUseToken) → p r ≡ true → TokenFate r (f r))
      → (xs : List SingleUseToken) → P xs
      → P (update_where p f xs))
    (by_insert : (r : SingleUseToken) (xs : List SingleUseToken)
      → any (has_token_hash r.token_hash) xs ≡ false
      → P xs
      → P (insert_row r xs)) where
  pub email_tokens_keep :
      HistoryRelation (λ t u. P t.email_verification_tokens → P u.email_verification_tokens)
  email_tokens_keep = record {
    preorder = record { refl' = λ t h. h; trans' = λ t u v h k x. k (h x) };
    by_same = λ t u e f g. subst P (sym f);
    by_sessions = λ t p f h x. x;
    by_new_session = λ t s e x. x;
    by_email_tokens = λ t p f h. by_update p f h t.email_verification_tokens;
    by_new_email_token = λ t r e. by_insert r t.email_verification_tokens e;
    by_reset_tokens = λ t p f h x. x;
    by_new_reset_token = λ t r e x. x;
  }

  pub reset_tokens_keep :
      HistoryRelation (λ t u. P t.password_reset_tokens → P u.password_reset_tokens)
  reset_tokens_keep = record {
    preorder = record { refl' = λ t h. h; trans' = λ t u v h k x. k (h x) };
    by_same = λ t u e f g. subst P (sym g);
    by_sessions = λ t p f h x. x;
    by_new_session = λ t s e x. x;
    by_email_tokens = λ t p f h x. x;
    by_new_email_token = λ t r e x. x;
    by_reset_tokens = λ t p f h. by_update p f h t.password_reset_tokens;
    by_new_reset_token = λ t r e. by_insert r t.password_reset_tokens e;
  }
