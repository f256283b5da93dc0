-- ===== src/Model/AuthRows.antt =====
-- internal/domain/auth/model/models.go.
use firmflow.Base.{ℕ, String, Bool, List, Option}

pub record User : Type 0 where
  pub id : ℕ
  pub email : List ℕ
  pub password_hash : String
  pub email_verified_at : Option ℕ
  pub two_factor_enabled : Bool
  pub deletion_grace_at : Option ℕ
  pub deleted_at : Option ℕ
  pub created_at : ℕ
  pub updated_at : ℕ

pub record UserProfile : Type 0 where
  pub id : ℕ
  pub user_id : ℕ
  pub first_name : String
  pub last_name : String
  pub avatar_url : String
  pub company_name : String
  pub phone_number : String
  pub timezone : String
  pub preferred_language : String
  pub created_at : ℕ
  pub updated_at : ℕ

pub record AuthSession : Type 0 where
  pub id : ℕ
  pub user_id : ℕ
  pub refresh_token_hash : String
  pub expires_at : ℕ
  pub user_agent : String
  pub ip : String
  pub last_seen_at : ℕ
  pub revoked_at : Option ℕ
  pub replaced_by_session_id : Option ℕ
  pub created_at : ℕ
  pub updated_at : ℕ

-- `EmailVerificationToken` and `PasswordResetToken`, which have the same columns.
pub record SingleUseToken : Type 0 where
  pub id : ℕ
  pub user_id : ℕ
  pub token_hash : String
  pub expires_at : ℕ
  pub consumed_at : Option ℕ
  pub created_at : ℕ

pub record AuthThrottle : Type 0 where
  pub id : ℕ
  pub email_key : List ℕ
  pub failed_attempts : ℕ
  pub first_failed_at : Option ℕ
  pub lock_until : Option ℕ
  pub updated_at : ℕ
  pub created_at : ℕ

pub record TwoFactorSetting : Type 0 where
  pub id : ℕ
  pub user_id : ℕ
  pub secret_encrypted : String
  pub enabled_at : Option ℕ
  pub created_at : ℕ
  pub updated_at : ℕ

pub record RecoveryCode : Type 0 where
  pub id : ℕ
  pub two_factor_setting_id : ℕ
  pub code_hash : String
  pub used_at : Option ℕ
  pub created_at : ℕ
