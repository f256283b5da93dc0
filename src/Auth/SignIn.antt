-- ===== src/Auth/SignIn.antt =====
-- Who is signed in: `Login` of internal/domain/auth/service/service.go.
use firmflow.Base.{
  Bool-cases, String, ◌≤◌, ℕ, Bool, true, false, if◌then◌else◌, ◌≤◌, not, ◌&&◌, ◌≡◌, refl, ap, List,
  Option, none, some, find?, count, arith, inl, inr, subst, is_some, ltb, ◌⊎◌,
}
use firmflow.Base.Text.{is_empty}
use firmflow.Store.Triple.{bind-Triple, now-Triple, pure-Triple, weaken-Triple}
use firmflow.Store.Run.{Refuses, after_first, after_bind, after_guard}
use firmflow.Store.Partial.{run-Returns, exec-Returns, if-Returns, Returns}
use firmflow.Model.{Tables, User, TwoFactorSetting}
use firmflow.Auth.Service.{
  only_second_factor, finish_login, login, TokenPair, check_second_factor, try_recovery_code,
  or_fail, refuse_login,
}
use firmflow.Auth.External.{AuthConfig, External}
use firmflow.Auth.Repository.TwoFactor.{
  unused_code, consume_recovery_code, get_two_factor_by_user, find_setting,
}
use firmflow.Auth.Repository.{find_user_by_email, normalize_email, find_user_by_email_in}
use firmflow.Auth.Repository.Throttle.{is_email_locked, of_email, is_locked}
use firmflow.Store.{guard, ◌>>=◌, Error, next, now, query, ok, World, pure, unauthorized}
use firmflow.Auth.Repository.Sessions.{SessionMeta}
use firmflow.Db.{Db}

-- The second factor that these tables accept from a user at this time.
pub record SecondFactor (x : External) (user : User) (totp recovery : List ℕ) (at : ℕ) (t : Tables)
    : Type 0 where
  setting : TwoFactorSetting
  secret : List ℕ
  is_set : find_setting user.id t ≡ some setting
  decrypted : x.decrypt setting.secret_encrypted ≡ some secret
  accepted :
      (x.totp_valid at secret totp ≡ true)
      ⊎ (1 ≤ count (unused_code setting.id (x.hash_token recovery)) t.recovery_codes)

-- What the tables before a login say when it returns an answer. The second outside event of a login
-- is the reading of the clock for the lock, the fifth the one for the TOTP code.
pub record SignedIn (x : External) (email password totp recovery : List ℕ) (w : World Tables)
    (pair : TokenPair) : Type 0 where
  user : User
  found : find_user_by_email_in email w.db ≡ some user
  verified : is_some user.email_verified_at ≡ true
  matches : x.password_matches user.password_hash password ≡ true
  not_locked :
      is_locked (w.env.clock (next w).tick) (find? (of_email email) w.db.auth_throttles) ≡ false
  with_factor :
      (pair ≡ only_second_factor)
      ⊎ ((user.two_factor_enabled ≡ false)
          ⊎ SecondFactor x user totp recovery (w.env.clock (next (next (next (next w)))).tick) w.db)

and_right : (a b : Bool) → (a && b) ≡ true → b ≡ true
and_right a b h = ground arith

pos_count : (n : ℕ) → ltb 0 n ≡ true → 1 ≤ n
pos_count n h = ground arith

module _ (x : External) (t0 : Tables) where
  abbrev Here : Tables → Type 0
  Here t = t ≡ t0

  consume_recovery_code-Returns :
      (setting_id : ℕ) (hash : String)
      → Returns Here
          (consume_recovery_code setting_id hash)
          (λ b t. b ≡ true → 1 ≤ count (unused_code setting_id hash) t0.recovery_codes)
  unfolding consume_recovery_code
  consume_recovery_code-Returns setting_id hash = bind-Triple _ _ now-Triple (λ at.
      bind-Triple {Q = λ n t. n ≡ count (unused_code setting_id hash) t0.recovery_codes} _ _
        (exec-Returns _ (λ t h. ap (λ u. count (unused_code setting_id hash) u.recovery_codes) h))
        (λ n. pure-Triple _ (λ t h k. subst (λ m. 1 ≤ m) h (pos_count n k))))

  -- Whether the code passed, and if it was a recovery code, that it was there.
  try_recovery_code-Returns :
      (setting_id : ℕ) (recovery : List ℕ) (done : Bool)
      → Returns Here (try_recovery_code x setting_id recovery done) (λ b t.
        b ≡ true
        → (done ≡ true)
          ⊎ (1 ≤ count (unused_code setting_id (x.hash_token recovery)) t0.recovery_codes))
  unfolding try_recovery_code
  try_recovery_code-Returns setting_id recovery done =
      if-Returns (not done && not (is_empty recovery))
        (consume_recovery_code setting_id (x.hash_token recovery)) (pure done)
        (λ e. weaken-Triple (λ b t h k. inr (h k)) (consume_recovery_code-Returns setting_id _))
        (λ e. pure-Triple done (λ t h k. inl k))

is_false : (b : Bool) → not b ≡ true → b ≡ false
is_false b h = ground arith

guard-ok : (b : Bool) (e : Error) (w : World Tables) → (guard b e w).0 ≡ ok tt → b ≡ true
guard-ok true e w h = refl
guard-ok false e w h = absurd (cc h)

either_ran :
    (b : Bool) (m : Db (Unit {0})) (w : World Tables)
    → ((if b then m else pure tt) w).0 ≡ ok tt
    → (b ≡ false) ⊎ ((m w).0 ≡ ok tt)
either_ran true m w h = inr h
either_ran false m w h = inl refl

after_option :
    {A B : Type 0} {b : B} (o : Option A) (f : A → Db B) (w : World Tables)
    → ((or_fail o >>= f) w).0 ≡ ok b
    → (a : A) × (o ≡ some a) × ((f a w).0 ≡ ok b)
after_option none f w h = absurd (cc h)
after_option (some a) f w h = (a, refl, h)

refuse_login-Refuses :
    {A : Type 0} (x : External) (cfg : AuthConfig) (email : List ℕ)
    → Refuses (refuse_login {A = A} x cfg email)
unfolding refuse_login
refuse_login-Refuses x cfg email w = (unauthorized, refl)

module _ (x : External) where
  check-SecondFactor :
      (user : User) (totp recovery : List ℕ) (w : World Tables)
      → (check_second_factor x user totp recovery w).0 ≡ ok tt
      → SecondFactor x user totp recovery (w.env.clock (next w).tick) w.db
  unfolding check_second_factor get_two_factor_by_user now
  check-SecondFactor user totp recovery w h =
      let (setting, is_set, h1) =
        after_first (find_setting user.id) _ _ w (λ e v. (unauthorized, refl)) h in
      let (secret, decrypted, h2) =
        after_option (x.decrypt setting.secret_encrypted) _ (next w) h1 in
      let right = not (is_empty totp) && x.totp_valid (w.env.clock (next w).tick) secret totp in
      let (done, tried, h3) =
        after_bind (try_recovery_code x setting.id recovery right) _ (next (next w)) h2 in
      let code =
        run-Returns (try_recovery_code-Returns x w.db setting.id recovery right) (next (next w))
          refl done tried (guard-ok done unauthorized _ h3) in
      record {
        setting = setting;
        secret = secret;
        is_set = is_set;
        decrypted = decrypted;
        accepted = elim code [ inl k ↦ inl (and_right (not (is_empty totp)) _ k) | inr k ↦ inr k ];
      }

  -- The answer, and the factor that it stands on.
  Factor : User → List ℕ → List ℕ → World Tables → TokenPair → Type 0
  Factor user totp recovery w pair =
      (pair ≡ only_second_factor)
      ⊎ ((user.two_factor_enabled ≡ false)
          ⊎ SecondFactor x user totp recovery (w.env.clock (next w).tick) w.db)

  checked-Factor :
      (user : User) (totp recovery : List ℕ) (w : World Tables) (pair : TokenPair)
      → ((if user.two_factor_enabled then check_second_factor x user totp recovery else pure tt)
          w).0
        ≡ ok tt
      → Factor user totp recovery w pair
  unfolding Factor
  checked-Factor user totp recovery w pair h =
      elim (either_ran user.two_factor_enabled (check_second_factor x user totp recovery) w h) [
        | inl e ↦ inr (inl e)
        | inr ran ↦ inr (inr (check-SecondFactor user totp recovery w ran))
      ]

  finish_login-Factor :
      (cfg : AuthConfig) (email totp recovery : List ℕ) (meta : SessionMeta) (user : User)
      (w : World Tables) (pair : TokenPair)
      → (finish_login x cfg email totp recovery meta user w).0 ≡ ok pair
      → Factor user totp recovery w pair
  unfolding finish_login Factor
  finish_login-Factor cfg email totp recovery meta user w pair h =
      elim (Bool-cases (user.two_factor_enabled && (is_empty totp && is_empty recovery))) [
        | inl e ↦ let same : ok only_second_factor ≡ ok pair = rw e at h in inl (cc same)
        | inr e ↦
            let ran =
              after_bind
                (if user.two_factor_enabled
                  then check_second_factor x user totp recovery
                  else pure tt)
                _ w (rw e at h) in
            checked-Factor user totp recovery w pair ran.1
      ]

  after_lock :
      {B : Type 0} {b : B} (email : List ℕ) (f : Bool → Db B) (w : World Tables)
      → ((is_email_locked x email >>= f) w).0 ≡ ok b
      → (f
          (is_locked
            (w.env.clock (next w).tick)
            (find? (of_email (normalize_email x email)) w.db.auth_throttles))
          (next (next w))).0
        ≡ ok b
  unfolding is_email_locked query now
  after_lock email f w h = elim (Bool-cases (w.env.fails w.tick)) [
    | inl e ↦ absurd (cc (rw e at h))
    | inr e ↦ rw e at h
  ]

  after_password :
      {B : Type 0} {b : B} (cfg : AuthConfig) (email : List ℕ) (right : Bool) (f : Unit {0} → Db B)
      (w : World Tables)
      → (((if right then pure tt else refuse_login x cfg email) >>= f) w).0 ≡ ok b
      → (right ≡ true) × ((f tt w).0 ≡ ok b)
  unfolding refuse_login
  after_password cfg email true f w h = (refl, h)
  after_password cfg email false f w h = absurd (cc h)

-- A login that returns an answer stands on the tables before it: the address, trimmed and in lower
-- case, is that of a user who is not deleted, whose address is verified and whose password matches,
-- and it is not locked at the time that the check reads from the clock. With a second factor turned
-- on, the answer only asks for it, or the TOTP code is valid at the time that its check reads, or
-- the recovery code is there and unused.
pub login-SignedIn :
    (x : External) (cfg : AuthConfig) (email password totp recovery : List ℕ) (meta : SessionMeta)
    (w : World Tables) (pair : TokenPair)
    → (login x cfg email password totp recovery meta w).0 ≡ ok pair
    → SignedIn x (normalize_email x (normalize_email x email)) password totp recovery w pair
unfolding login find_user_by_email Factor
login-SignedIn x cfg email password totp recovery meta w pair h =
    let key = normalize_email x email in
    let (free, h1) = after_guard _ _ _ (next (next w)) (after_lock x key _ w h) in
    let (user, found, h2) =
      after_first (find_user_by_email_in (normalize_email x key)) _ _ (next (next w))
        (λ e. refuse_login-Refuses x cfg key) h1 in
    let (verified, h3) = after_guard _ _ _ (next (next (next w))) h2 in
    let (matches, h4) = after_password x cfg key _ _ (next (next (next w))) h3 in
    record {
      user = user;
      found = found;
      verified = verified;
      matches = matches;
      not_locked = is_false _ free;
      with_factor =
          finish_login-Factor x cfg key totp recovery meta user (next (next (next w))) pair h4;
    }
