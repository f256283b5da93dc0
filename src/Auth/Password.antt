-- ===== src/Auth/Password.antt =====
-- `ValidatePasswordStrength` of internal/domain/auth/security/password.go.
use firmflow.Base.{
  ℕ, Bool, ◌&&◌, ◌||◌, not, if◌then◌else◌, Option, none, some, List, ltb, leb, length, any, String,
}

in_range : ℕ → ℕ → ℕ → Bool
in_range low high b = leb low b && leb b high

-- `[A-Z]`, `[a-z]`, `[0-9]` and `[^A-Za-z0-9]`; a byte outside ASCII belongs to a character that is
-- none of the letters and digits.
is_upper : ℕ → Bool
unfolding in_range
is_upper = in_range 65 90

is_lower : ℕ → Bool
unfolding in_range
is_lower = in_range 97 122

is_digit : ℕ → Bool
unfolding in_range
is_digit = in_range 48 57

is_symbol : ℕ → Bool
unfolding is_upper is_lower is_digit
is_symbol b = not (is_upper b || (is_lower b || is_digit b))

abbrev pub min_password_length : ℕ
min_password_length = 12

-- The message of the error, `none` when the password passes; every caller asks for 12 bytes.
unfoldable pub validate_password_strength : List ℕ → Option String
unfolding is_upper is_lower is_digit is_symbol
validate_password_strength password =
    if ltb (length password) min_password_length
    then some "password must be at least 12 characters"
    else if any is_upper password
        && (any is_lower password && (any is_digit password && any is_symbol password))
    then none
    else some "password must include uppercase, lowercase, digit, and symbol"
