-- ===== src/Auth/External.antt =====
-- What internal/domain/auth takes from libraries, and internal/config's AuthConfig.
use firmflow.Base.{ℕ, String, Bool, List, Option}
use firmflow.Store.{M, pure, query, new_uuid, ◌>>=◌, ◌>>◌}

-- `strings.ToLower`; the hex text of SHA-256; bcrypt, whose salt is the first argument of
-- `hash_password`, and its comparison; AES-GCM, with the nonce first; the check of a TOTP code at
-- a time; the text of random bytes; the signature of an access token.
pub record External : Type 0 where
  pub to_lower : List ℕ → List ℕ
  pub hash_token : List ℕ → String
  pub hash_password : ℕ → List ℕ → Option String
  pub password_matches : String → List ℕ → Bool
  pub encrypt : ℕ → List ℕ → Option String
  pub decrypt : String → Option (List ℕ)
  pub totp_secret : ℕ → List ℕ
  pub totp_valid : ℕ → List ℕ → List ℕ → Bool
  pub token_text : ℕ → List ℕ
  pub sign : ℕ → ℕ → ℕ → Option (List ℕ)

-- The settings that the service reads, durations in nanoseconds.
pub record AuthConfig : Type 0 where
  pub access_token_ttl : ℕ
  pub refresh_token_ttl : ℕ
  pub login_attempt_window : ℕ
  pub max_login_attempts : ℕ

-- `rand.Read`: it fails, or draws a number.
unfoldable pub draw : {S : Type 0} → M S ℕ
draw = query (λ t. tt) >> new_uuid

-- `GenerateSecureToken` of internal/domain/auth/security/token.go.
unfoldable pub generate_secure_token : {S : Type 0} → External → M S (List ℕ)
unfolding draw
generate_secure_token x = do n ← draw; pure (x.token_text n)
