-- ===== src/Auth/Repository.antt =====
-- internal/domain/auth/repository/repository.go: accounts and single-use tokens. `Sessions`,
-- `Throttle` and `TwoFactor` have the other tables.
pub mod Sessions
pub mod Throttle
pub mod TwoFactor
use firmflow.Base.{
  ℕ, zero, suc, String, Bool, true, false, ◌&&◌, if◌then◌else◌, Option, none, some, is_none, List,
  ◌==◌, ltb, str_eq, any, find?,
}
use firmflow.Base.Text.{trim_space, same_bytes}
use firmflow.Store.{◌>>=◌, ◌>>◌, pure, now, new_uuid, exec, exec_unique, transaction, first}
use firmflow.Model.{
  User, UserProfile, SingleUseToken, AuthSession, Tables, update_where, insert_row,
}
use firmflow.Db.{Db, live}
use firmflow.Auth.External.{External}

unfoldable pub normalize_email : External → List ℕ → List ℕ
normalize_email x email = x.to_lower (trim_space email)

-- `user` and `profile` of `Register`, with what `BeforeCreate` and gorm fill in.
unfoldable pub create_user_with_profile : List ℕ → String → Db ℕ
create_user_with_profile email password_hash = transaction do
  id ← new_uuid
  at ← now
  exec_unique (λ t. any (λ u. same_bytes u.email email) t.users)
      λ t. (
        record t {
          users =
              insert_row
                (record {
                  id = id;
                  email = email;
                  password_hash = password_hash;
                  email_verified_at = none;
                  two_factor_enabled = false;
                  deletion_grace_at = none;
                  deleted_at = none;
                  created_at = at;
                  updated_at = at;
                })
                t.users;
        },
        tt,
      )
  profile_id ← new_uuid
  profile_at ← now
  exec_unique (λ t. any (λ p. p.user_id == id) t.user_profiles)
      λ t. (
        record t {
          user_profiles =
              insert_row
                (record {
                  id = profile_id;
                  user_id = id;
                  first_name = "";
                  last_name = "";
                  avatar_url = "";
                  company_name = "";
                  phone_number = "";
                  timezone = "UTC";
                  preferred_language = "en";
                  created_at = profile_at;
                  updated_at = profile_at;
                })
                t.user_profiles;
        },
        tt,
      )
  pure id

abbrev pub find_user_by_email_in : List ℕ → Tables → Option User
find_user_by_email_in email t = find? (λ u. same_bytes u.email email && live u.deleted_at) t.users

unfoldable pub find_user_by_email : External → List ℕ → Db User
unfolding normalize_email
find_user_by_email x email = first (find_user_by_email_in (normalize_email x email))

abbrev pub of_user_id : ℕ → User → Bool
of_user_id user_id u = (u.id == user_id) && live u.deleted_at

abbrev pub find_user_in : ℕ → Tables → Option User
find_user_in user_id t = find? (of_user_id user_id) t.users

unfoldable pub find_user_by_id : ℕ → Db User
find_user_by_id user_id = first (find_user_in user_id)

-- `Model(&User{}).Where("id = ?", …).Update(…)`.
unfoldable pub update_user : ℕ → (User → User) → Db (Unit {0})
update_user user_id f =
    exec λ t. (record t { users = update_where (of_user_id user_id) f t.users }, tt)

unfoldable pub update_password : ℕ → String → Db (Unit {0})
unfolding update_user
update_password user_id new_hash = do
  at ← now
  update_user user_id (λ u. record u { password_hash = new_hash; updated_at = at })

-- `token_hash = ? AND consumed_at IS NULL AND expires_at > ?`.
abbrev pub usable : String → ℕ → SingleUseToken → Bool
usable token_hash at r =
    str_eq r.token_hash token_hash && (is_none r.consumed_at && ltb at r.expires_at)

abbrev pub has_id : ℕ → SingleUseToken → Bool
has_id id r = r.id == id

abbrev pub consumed : ℕ → SingleUseToken → SingleUseToken
consumed at r = record r { consumed_at = some at }

abbrev pub fresh_token : ℕ → ℕ → ℕ → String → ℕ → SingleUseToken
fresh_token id at user_id token_hash expires_at = record {
  id = id;
  user_id = user_id;
  token_hash = token_hash;
  expires_at = expires_at;
  consumed_at = none;
  created_at = at;
}

unfoldable pub create_email_verification_token : ℕ → String → ℕ → Db (Unit {0})
create_email_verification_token user_id token_hash expires_at = do
  id ← new_uuid
  at ← now
  exec_unique (λ t. any (λ r. str_eq r.token_hash token_hash) t.email_verification_tokens)
      λ t. (
        record t {
          email_verification_tokens =
              insert_row (fresh_token id at user_id token_hash expires_at)
                t.email_verification_tokens;
        },
        tt,
      )

unfoldable pub create_reset_token : ℕ → String → ℕ → Db (Unit {0})
create_reset_token user_id token_hash expires_at = do
  id ← new_uuid
  at ← now
  exec_unique (λ t. any (λ r. str_eq r.token_hash token_hash) t.password_reset_tokens)
      λ t. (
        record t {
          password_reset_tokens =
              insert_row (fresh_token id at user_id token_hash expires_at) t.password_reset_tokens;
        },
        tt,
      )

unfoldable pub consume_email_verification_token : String → Db User
unfolding update_user
consume_email_verification_token token_hash = transaction do
  read_at ← now
  token ← first λ t. find? (usable token_hash read_at) t.email_verification_tokens
  at ← now
  exec λ t. (
    record t {
      email_verification_tokens =
          update_where (has_id token.id) (consumed at) t.email_verification_tokens;
    },
    tt,
  )
  u ← first (find_user_in token.user_id)
  update_user u.id (λ v. record v { email_verified_at = some at; updated_at = at })
  pure u

-- The open sessions of a user are revoked.
abbrev pub open_of_user : ℕ → AuthSession → Bool
open_of_user user_id s = (s.user_id == user_id) && is_none s.revoked_at

abbrev pub revoked_session : ℕ → AuthSession → AuthSession
revoked_session at s = record s { revoked_at = some at; updated_at = at }

unfoldable pub update_sessions : (AuthSession → Bool) → (AuthSession → AuthSession) → Db (Unit {0})
update_sessions p f = exec λ t. (record t { auth_sessions = update_where p f t.auth_sessions }, tt)

unfoldable pub consume_reset_token_and_set_password : String → String → Db ℕ
unfolding update_user update_sessions
consume_reset_token_and_set_password token_hash password_hash = transaction do
  read_at ← now
  token ← first λ t. find? (usable token_hash read_at) t.password_reset_tokens
  at ← now
  exec λ t. (
    record t {
      password_reset_tokens = update_where (has_id token.id) (consumed at) t.password_reset_tokens;
    },
    tt,
  )
  update_user token.user_id (λ u. record u { password_hash = password_hash; updated_at = at })
  update_sessions (open_of_user token.user_id) (revoked_session at)
  pure token.user_id

-- `SoftDeleteUser`.
unfoldable pub soft_delete_user : ℕ → Option ℕ → Db (Unit {0})
unfolding update_user update_sessions
soft_delete_user user_id grace = transaction do
  stamped ← now
  update_user user_id (λ u. record u { deletion_grace_at = grace; updated_at = stamped })
  deleted ← now
  update_user user_id (λ u. record u { deleted_at = some deleted })
  at ← now
  update_sessions (open_of_user user_id) (revoked_session at)

unfoldable pub get_profile : ℕ → Db UserProfile
get_profile user_id = first (λ t. find? (λ p. p.user_id == user_id) t.user_profiles)

-- `Save(profile)`.
unfoldable pub update_profile : UserProfile → Db (Unit {0})
update_profile profile = do
  at ← now
  exec λ t. (
    record t {
      user_profiles =
          update_where (λ p. p.id == profile.id) (λ p. record profile { updated_at = at })
            t.user_profiles;
    },
    tt,
  )
