-- ===== src/Auth/Service/Account.antt =====
-- `UpdateProfile` and `DeleteAccount`.
use firmflow.Base.{ℕ, ◌+◌, ◌*◌, String, Bool, true, if◌then◌else◌, Option, none, some, List, str_eq}
use firmflow.Base.Int.{ℤ, ltb_ℤ, pos, to_ℕ}
use firmflow.Store.{◌>>=◌, ◌>>◌, pure, now, guard, bad_request}
use firmflow.Model.{UserProfile}
use firmflow.Db.{Db}
use firmflow.Auth.External.{External}
use firmflow.Auth.Repository.{get_profile, update_profile, soft_delete_user}
use firmflow.Auth.Service.{hour, audit_user}
use firmflow.Auth.Service.Passwords.{confirmed_user}

-- A field that is given replaces the old one.
unfoldable pub given : String → String → String
given new old = if str_eq new "" then old else new

unfoldable pub merged_profile : UserProfile → UserProfile → UserProfile
unfolding given
merged_profile new p = record p {
  first_name = given new.first_name p.first_name;
  last_name = given new.last_name p.last_name;
  avatar_url = given new.avatar_url p.avatar_url;
  company_name = given new.company_name p.company_name;
  phone_number = given new.phone_number p.phone_number;
  timezone = given new.timezone p.timezone;
  preferred_language = given new.preferred_language p.preferred_language;
}

-- The first argument says which texts name a time zone: `time.LoadLocation`.
unfoldable pub change_profile : (String → Bool) → ℕ → UserProfile → Db UserProfile
unfolding merged_profile
change_profile is_location user_id new = do
  guard (if str_eq new.timezone "" then true else is_location new.timezone)
      (bad_request "invalid timezone")
  p ← get_profile user_id
  update_profile (merged_profile new p)
  pure (merged_profile new p)

unfoldable pub grace_until : ℤ → Db (Option ℕ)
grace_until grace_days =
    if ltb_ℤ (pos 0) grace_days
    then (do at ← now; pure (some (at + to_ℕ grace_days * (24 * hour))))
    else pure none

unfoldable pub delete_account : External → ℕ → List ℕ → ℤ → Db (Unit {0})
unfolding grace_until
delete_account x user_id password grace_days = do
  _ ← confirmed_user x user_id password
  grace ← grace_until grace_days
  soft_delete_user user_id grace
  audit_user user_id "auth.account_deleted"
