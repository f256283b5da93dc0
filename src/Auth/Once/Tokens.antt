-- ===== src/Auth/Once/Tokens.antt =====
-- A token for a new password or for an address is consumed once: `ResetPassword` and `VerifyEmail`
-- of internal/domain/auth/service/service.go.
use firmflow.Base.{
  ℕ, String, Bool, true, false, ◌&&◌, ◌≡◌, refl, List, [], ◌∷◌, any, str_eq, find?, Bool-cases, inl,
  inr, arith, some, is_none,
}
use firmflow.Store.Triple.{pure-Triple, weaken-Triple, bind-Triple, now-Triple, triple}
use firmflow.Store.Partial.{
  exec-Returns, first-Returns, transaction-Returns, Returns, Keeps-Returns,
}
use firmflow.Model.{update_where, SingleUseToken}
use firmflow.Auth.Frame
use firmflow.Auth.History.{HistoryRelation, TokenFate}
use firmflow.Auth.Spent.{Spent-insert, Spent-update, Unique-insert, Unique-update, Spent, Unique}
use firmflow.Auth.Repository.{
  consume_email_verification_token, consumed, has_id, consume_reset_token_and_set_password, usable,
}
use firmflow.Auth.Spent.Found.{shut-Spent, found-Only, Only}
use firmflow.Auth.History.Relations.{email_tokens_keep, reset_tokens_keep}

abbrev pub token_hash : SingleUseToken → String
token_hash r = r.token_hash

abbrev pub unconsumed : SingleUseToken → Bool
unconsumed r = is_none r.consumed_at

abbrev token_id : SingleUseToken → ℕ
token_id r = r.id

-- A token with this hash was issued and is consumed.
abbrev pub TokenSpent : String → List SingleUseToken → Type 0
TokenSpent = Spent token_hash unconsumed

abbrev pub TokenUnique : String → List SingleUseToken → Type 0
TokenUnique = Unique token_hash unconsumed

-- What the fates and the unique index keep of a table of tokens.
module _ (h : String) where
  spent_update :
      (p : SingleUseToken → Bool) (f : SingleUseToken → SingleUseToken)
      → ((r : SingleUseToken) → p r ≡ true → TokenFate r (f r))
      → (xs : List SingleUseToken) → TokenSpent h xs
      → TokenSpent h (update_where p f xs)
  spent_update p f fate =
      Spent-update token_hash unconsumed h p f (λ r e. (fate r e).same_hash)
        (λ r e. (fate r e).still_consumed)

  unique_update :
      (p : SingleUseToken → Bool) (f : SingleUseToken → SingleUseToken)
      → ((r : SingleUseToken) → p r ≡ true → TokenFate r (f r))
      → (xs : List SingleUseToken) → TokenUnique h xs
      → TokenUnique h (update_where p f xs)
  unique_update p f fate = Unique-update token_hash unconsumed h p f (λ r e. (fate r e).same_hash)

  pub reset_spent :
      HistoryRelation
        (λ t u. TokenSpent h t.password_reset_tokens → TokenSpent h u.password_reset_tokens)
  reset_spent =
      reset_tokens_keep (TokenSpent h) spent_update (λ r. Spent-insert token_hash unconsumed h r)

  pub reset_unique :
      HistoryRelation
        (λ t u. TokenUnique h t.password_reset_tokens → TokenUnique h u.password_reset_tokens)
  reset_unique =
      reset_tokens_keep (TokenUnique h) unique_update (λ r. Unique-insert token_hash unconsumed h r)

  pub email_spent :
      HistoryRelation
        (λ t u. TokenSpent h t.email_verification_tokens → TokenSpent h u.email_verification_tokens)
  email_spent =
      email_tokens_keep (TokenSpent h) spent_update (λ r. Spent-insert token_hash unconsumed h r)

  usable_has : (at : ℕ) (r : SingleUseToken) → usable h at r ≡ true → str_eq r.token_hash h ≡ true
  usable_has at r e = ground arith

  found_token :
      (at : ℕ) (c : SingleUseToken) (xs : List SingleUseToken)
      → find? (usable h at) xs ≡ some c
      → TokenUnique h xs
      → Only token_hash unconsumed token_id h c.id xs
  found_token at = found-Only token_hash unconsumed token_id h (usable h at) (usable_has at)

  consumed_token :
      (id at : ℕ) (xs : List SingleUseToken)
      → Only token_hash unconsumed token_id h id xs
      → TokenSpent h (update_where (has_id id) (consumed at) xs)
  consumed_token id at =
      shut-Spent token_hash unconsumed token_id h id (has_id id) (consumed at) (λ r e f. e)
        (λ r. refl) (λ r. refl)

  nothing_usable :
      (at : ℕ) (c : SingleUseToken) (xs : List SingleUseToken)
      → any (λ r. str_eq r.token_hash h && is_none r.consumed_at) xs ≡ false
      → find? (usable h at) xs ≡ some c
      → ⊥
  nothing_usable at c [] e f = cc f
  nothing_usable at c (x ∷ xs) e f = elim (Bool-cases (usable h at x)) [
    | inl g ↦ ground arith
    | inr g ↦ nothing_usable at c xs (ground arith) (rw g at f)
  ]

  pub consume_reset_spends :
      (p : String)
      → Returns
          (λ t. TokenUnique h t.password_reset_tokens)
          (consume_reset_token_and_set_password h p)
          (λ u t. TokenSpent h t.password_reset_tokens)
  unfolding consume_reset_token_and_set_password
  consume_reset_spends p = transaction-Returns _ (
      bind-Triple _ _ now-Triple (λ read_at. bind-Triple _ _ (first-Returns _) (λ c.
        bind-Triple _ _ now-Triple (λ at.
          bind-Triple _ _
            (exec-Returns _ (λ t e.
              consumed_token c.id at t.password_reset_tokens
                (found_token read_at c t.password_reset_tokens e.1 e.0)))
            (λ u.
              bind-Triple _ _
                (Keeps-Returns (λ t. TokenSpent h t.password_reset_tokens) (λ t u k. k) _
                  (Frame.update_user-Keeps _ reset_spent c.user_id _))
                (λ u.
                  bind-Triple _ _
                    (Keeps-Returns (λ t. TokenSpent h t.password_reset_tokens) (λ t u k. k) _
                      (Frame.update_sessions-Keeps _ reset_spent _ _
                        (Frame.open_sessions c.user_id at)))
                    (λ u. pure-Triple _ (λ t e. e))))))))

  pub consume_reset_refused :
      (p : String)
      → Returns
          (λ t. TokenSpent h t.password_reset_tokens)
          (consume_reset_token_and_set_password h p)
          (λ u t. ⊥)
  unfolding consume_reset_token_and_set_password
  consume_reset_refused p = transaction-Returns _ (
      bind-Triple _ _ now-Triple (λ read_at.
        bind-Triple {Q = λ c t. ⊥} _ _
          (weaken-Triple
            (λ c t e. nothing_usable read_at c t.password_reset_tokens e.0.none_open e.1)
            (first-Returns _))
          (λ c. triple λ w e. absurd e)))

  pub consume_email_spends :
      Returns
        (λ t. TokenUnique h t.email_verification_tokens)
        (consume_email_verification_token h)
        (λ u t. TokenSpent h t.email_verification_tokens)
  unfolding consume_email_verification_token
  consume_email_spends = transaction-Returns _ (
      bind-Triple _ _ now-Triple (λ read_at. bind-Triple _ _ (first-Returns _) (λ c.
        bind-Triple _ _ now-Triple (λ at.
          bind-Triple _ _
            (exec-Returns _ (λ t e.
              consumed_token c.id at t.email_verification_tokens
                (found_token read_at c t.email_verification_tokens e.1 e.0)))
            (λ u. bind-Triple _ _ (weaken-Triple (λ v t e. e.0) (first-Returns _)) (λ v.
              bind-Triple _ _
                (Keeps-Returns (λ t. TokenSpent h t.email_verification_tokens) (λ t u k. k) _
                  (Frame.update_user-Keeps _ email_spent v.id _))
                (λ u. pure-Triple _ (λ t e. e))))))))

  pub consume_email_refused :
      Returns
        (λ t. TokenSpent h t.email_verification_tokens)
        (consume_email_verification_token h)
        (λ u t. ⊥)
  unfolding consume_email_verification_token
  consume_email_refused = transaction-Returns _ (
      bind-Triple _ _ now-Triple (λ read_at.
        bind-Triple {Q = λ c t. ⊥} _ _
          (weaken-Triple
            (λ c t e. nothing_usable read_at c t.email_verification_tokens e.0.none_open e.1)
            (first-Returns _))
          (λ c. triple λ w e. absurd e)))
