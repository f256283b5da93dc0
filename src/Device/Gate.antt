-- ===== src/Device/Gate.antt =====
-- Who gets in: an old token after a rotation and a blocked device do not. internal/domain/device.
pub mod Blocked
use firmflow.Base.{
  find?-sound, is_some, str_eq_iff, ℕ, String, Bool, true, false, not, ◌&&◌, ◌≡◌, refl, sym, ap,
  ◌∙◌, List, [], ◌∷◌, ◌++◌, Option, none, some, is_none, find?, any, str_eq, ◌==◌, arith, subst,
  Bool-cases, inl, inr,
}
use firmflow.Base.Text.{trim_space}
use firmflow.Store.{plain, World, ok, Keeps, keep_rules, IsPreorder, exec-Keeps}
use firmflow.Store.Triple.{
  first-Triple, bind-Triple, now-Triple, pure-Triple, weaken-Triple, with_fact,
}
use firmflow.Store.Partial.{
  always-Returns, Returns, run-Returns, Keeps-Returns, guard-Returns, exec-Returns,
  exec_unique-Returns, first-Returns, transaction-Returns, new_uuid-Returns,
}
use firmflow.Model.{Device, DeviceAuthToken, Tables, update_where, insert_row}
use firmflow.Db.{Db, audit, append_audit_log}
use firmflow.Auth.External.{External, generate_secure_token, draw}
use firmflow.Device.Tokens.{
  may_connect, of_device_id, active_token, get_device_by_active_token_hash, issued_token,
  insert_auth_token, replaced, open_token_of, rotate_device_auth_token,
}
use firmflow.Device.Scope.{get_device}
use firmflow.Device.Service.{DeviceTwin, get_device_twin, rotate_device_token}
use firmflow.Rbac.Authorizer.{authorize_project}
use firmflow.Device.Types.{get_device_type, ensure_unarchived}
use firmflow.Rbac.Repository.{get_membership_for_user, get_project}

-- The tokens stay as they are.
abbrev SameTokens : Tables → Tables → Type 0
SameTokens t u = u.device_auth_tokens ≡ t.device_auth_tokens

same_tokens : IsPreorder SameTokens
same_tokens = record { refl' = λ t. refl; trans' = λ t u v h k. k ∙ h }

-- An open token of the device with another hash than this one.
abbrev other_token : ℕ → String → DeviceAuthToken → Bool
other_token device_id hash r = open_token_of device_id r && not (str_eq r.token_hash hash)

-- The open tokens of the device all have this hash.
pub OnlyToken : ℕ → String → Tables → Type 0
OnlyToken device_id hash t = any (other_token device_id hash) t.device_auth_tokens ≡ false

abbrev NoToken : ℕ → Tables → Type 0
NoToken device_id t = any (open_token_of device_id) t.device_auth_tokens ≡ false

all_replaced :
    (device_id at new_id actor : ℕ) (xs : List DeviceAuthToken)
    → any
        (open_token_of device_id)
        (update_where (open_token_of device_id) (replaced at new_id actor) xs)
      ≡ false
unfolding update_where
all_replaced device_id at new_id actor [] = refl
all_replaced device_id at new_id actor (x ∷ xs) =
    let rest = all_replaced device_id at new_id actor xs in
    elim (Bool-cases (open_token_of device_id x)) [
      | inl e ↦ rw (e, rest) (ground arith)
      | inr e ↦ rw (e, rest, e) refl
    ]

one_new :
    (device_id : ℕ) (r : DeviceAuthToken) (xs : List DeviceAuthToken)
    → any (open_token_of device_id) xs ≡ false
    → str_eq r.token_hash r.token_hash ≡ true
    → any (other_token device_id r.token_hash) (insert_row r xs) ≡ false
one_new device_id r [] e s = rw s (ground arith)
one_new device_id r (x ∷ xs) e s =
    let rest = one_new device_id r xs (ground arith) s in ground arith

rotate-OnlyToken :
    (project_id device_id actor : ℕ) (hash : String) (new_id issued : ℕ)
    → Returns
        (λ t. Unit {0})
        (rotate_device_auth_token project_id device_id actor hash new_id issued)
        (λ d. OnlyToken device_id hash)
unfolding rotate_device_auth_token insert_auth_token get_device OnlyToken
rotate-OnlyToken project_id device_id actor hash new_id issued = bind-Triple _ _ now-Triple (λ at.
    bind-Triple {Q = λ u. OnlyToken device_id hash} _ _
      (transaction-Returns _ (
        bind-Triple {Q = λ d t. Unit {0}} _ _ (weaken-Triple (λ d t p. tt) (first-Returns _)) (λ d.
          bind-Triple {Q = λ u. NoToken device_id} _ _
            (exec-Returns _ (λ t p. all_replaced device_id at new_id actor t.device_auth_tokens))
            (λ u.
              bind-Triple {Q = λ v. OnlyToken device_id hash} _ _
                (exec_unique-Returns _ _ (λ t p fresh.
                  one_new device_id (issued_token new_id device_id hash issued actor)
                    t.device_auth_tokens p ((str_eq_iff hash hash).1 refl)))
                (λ v. exec-Returns _ (λ t p. p))))))
      (λ u. weaken-Triple (λ d t p. p.0) (first-Returns _)))

authorize-SameTokens : (q u : ℕ) (key : String) → Keeps SameTokens (authorize_project q u key)
unfolding authorize_project get_membership_for_user
authorize-SameTokens q u key = search (keep_rules, same_tokens) depth 12

ensure-SameTokens : (q : ℕ) → Keeps SameTokens (ensure_unarchived q)
unfolding ensure_unarchived get_project
ensure-SameTokens q = search (keep_rules, same_tokens) depth 12

audit-SameTokens : (a : ℕ) (e : String) (q : ℕ) → Keeps SameTokens (audit a e q)
unfolding audit append_audit_log
audit-SameTokens a e q = search (keep_rules, same_tokens, exec-Keeps) depth 12

twin-SameTokens : (a q d : ℕ) → Keeps SameTokens (get_device_twin a q d)
unfolding get_device_twin get_device get_device_type
twin-SameTokens a q d = search (keep_rules, same_tokens, authorize-SameTokens) depth 16

stays_only :
    (device_id : ℕ) (hash : String) (t u : Tables)
    → SameTokens t u
    → OnlyToken device_id hash t
    → OnlyToken device_id hash u
unfolding OnlyToken
stays_only device_id hash t u e o =
    subst (λ xs. any (other_token device_id hash) xs ≡ false) (sym e) o

rotate_device_token-OnlyToken :
    (x : External) (actor project_id device_id : ℕ)
    → Returns
        (λ t. Unit {0})
        (rotate_device_token x actor project_id device_id)
        (λ a. OnlyToken device_id (x.hash_token a.1))
unfolding rotate_device_token
rotate_device_token-OnlyToken x actor project_id device_id =
    bind-Triple _ _ (always-Returns (authorize_project project_id actor "device.token.rotate"))
      (λ m. bind-Triple _ _ (always-Returns (ensure_unarchived project_id)) (λ u.
        bind-Triple _ _ (always-Returns (get_device project_id device_id)) (λ d.
          bind-Triple _ _ (always-Returns (generate_secure_token x)) (λ raw.
            bind-Triple _ _ now-Triple (λ issued. bind-Triple _ _ new_uuid-Returns (λ new_id.
              bind-Triple _ _
                (rotate-OnlyToken project_id device_id actor (x.hash_token raw) new_id issued)
                (λ e.
                  bind-Triple _ _
                    (Keeps-Returns (OnlyToken device_id (x.hash_token raw))
                      (stays_only device_id (x.hash_token raw)) _
                      (audit-SameTokens actor "device.token_rotated" project_id))
                    (λ v.
                      bind-Triple _ _
                        (Keeps-Returns (OnlyToken device_id (x.hash_token raw))
                          (stays_only device_id (x.hash_token raw)) _
                          (twin-SameTokens actor project_id device_id))
                        (λ twin. pure-Triple (twin, raw) (λ t p. p))))))))))

-- What a search finds is there.
pub found_any :
    {A : Type 0} (p q : A → Bool) (x : A) (xs : List A)
    → find? p xs ≡ some x
    → q x ≡ true
    → any q xs ≡ false
    → ⊥
found_any p q x [] e h n = cc e
found_any p q x (y ∷ xs) e h n = elim (Bool-cases (p y)) [
  | inl f ↦
      let same : y ≡ x = ground arith in
      let head : q y ≡ false = ground arith in cc (ap q same, h, head)
  | inr f ↦ found_any p q x xs (rw f at e) h (ground arith)
]

-- The device that a token leads to, with the tables in which it does.
pub record Admitted (hash : String) (t : Tables) (d : Device) : Type 0 where
  pub token : DeviceAuthToken
  pub token_found : find? (active_token hash) t.device_auth_tokens ≡ some token
  pub device_found : find? (of_device_id token.device_id) t.devices ≡ some d
  pub not_blocked : not d.blocked ≡ true
  pub not_revoked : not (is_some d.token_revoked_at) ≡ true
  pub not_disabled : not (is_some d.polling_disabled_at) ≡ true

admit :
    (t0 : Tables) (hash : String)
    → Returns (λ t. t ≡ t0) (get_device_by_active_token_hash hash) (λ d t. Admitted hash t0 d)
unfolding get_device_by_active_token_hash may_connect
admit t0 hash =
    bind-Triple _ _ (first-Triple t0 (λ t. find? (active_token hash) t.device_auth_tokens) tt) (λ r.
      with_fact (λ found.
        bind-Triple _ _ (first-Triple t0 (λ t. find? (of_device_id r.device_id) t.devices) tt) (λ d.
          with_fact (λ there.
            bind-Triple _ _
              (bind-Triple _ _ (guard-Returns (not d.blocked) (plain "device_blocked")) (λ u.
                with_fact (λ one.
                  bind-Triple _ _
                    (guard-Returns (not (is_some d.token_revoked_at))
                      (plain "device_token_revoked"))
                    (λ v. with_fact (λ two.
                      weaken-Triple
                        (λ y t p. record {
                          token = r;
                          token_found = found;
                          device_found = there;
                          not_blocked = one;
                          not_revoked = two;
                          not_disabled = p.1;
                        })
                        (guard-Returns (not (is_some d.polling_disabled_at))
                          (plain "device_polling_disabled")))))))
              (λ w. pure-Triple d (λ t p. p))))))

and_left : (a b : Bool) → (a && b) ≡ true → a ≡ true
and_left a b h = ground arith

and_right : (a b : Bool) → (a && b) ≡ true → b ≡ true
and_right a b h = ground arith

-- A lookup that returns a device found an unrevoked token with the hash and, by the id in it, a
-- device that is not deleted, not blocked, whose tokens are not revoked and whose polling is not
-- disabled.
pub lookup-Admitted :
    (hash : String) (w : World Tables) (d : Device)
    → (get_device_by_active_token_hash hash w).0 ≡ ok d
    → Admitted hash w.db d
lookup-Admitted hash w d e = run-Returns (admit w.db hash) w refl d e

old_token :
    (hash new_hash : String) (device_id : ℕ) (d : Device) (r : DeviceAuthToken)
    → str_eq hash new_hash ≡ false
    → (d.id == device_id) ≡ true
    → active_token hash r ≡ true
    → of_device_id r.device_id d ≡ true
    → other_token device_id new_hash r ≡ true
old_token hash new_hash device_id d r n k a b =
    let same_hash =
      (str_eq_iff r.token_hash hash).0
        (and_left (str_eq r.token_hash hash) (is_none r.revoked_at) a) in
    let other = subst (λ h. str_eq h new_hash ≡ false) (sym same_hash) n in
    let fresh = and_right (str_eq r.token_hash hash) (is_none r.revoked_at) a in
    let of_it : (r.device_id == device_id) ≡ true = ground arith in rw (of_it, fresh, other) refl

-- A rotation shuts out every other token of the device: after it returned a new token, a lookup by
-- the hash of another one does not lead to this device.
pub rotate_device_token_shuts :
    (x : External) (actor project_id device_id : ℕ) (w : World Tables) (a : DeviceTwin × List ℕ)
    (hash : String) (v : World Tables) (d : Device)
    → (rotate_device_token x actor project_id device_id w).0 ≡ ok a
    → v.db ≡ (rotate_device_token x actor project_id device_id w).1.db
    → str_eq hash (x.hash_token a.1) ≡ false
    → (get_device_by_active_token_hash hash v).0 ≡ ok d
    → (d.id == device_id) ≡ false
unfolding OnlyToken
rotate_device_token_shuts x actor project_id device_id w a hash v d e same other f =
    let only = run-Returns (rotate_device_token-OnlyToken x actor project_id device_id) w tt a e in
    let adm = run-Returns (admit v.db hash) v refl d f in
    elim (Bool-cases (d.id == device_id)) [
      | inl k ↦ absurd (
          found_any (active_token hash) (other_token device_id (x.hash_token a.1)) adm.token
            v.db.device_auth_tokens adm.token_found
            (old_token hash (x.hash_token a.1) device_id d adm.token other k
              (find?-sound (active_token hash) v.db.device_auth_tokens adm.token adm.token_found)
              (find?-sound (of_device_id adm.token.device_id) v.db.devices d adm.device_found))
            (subst
              (λ t. any (other_token device_id (x.hash_token a.1)) t.device_auth_tokens ≡ false)
              (sym same) only))
      | inr k ↦ k
    ]
