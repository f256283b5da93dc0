-- ===== src/Device/Gate/Blocked.antt =====
-- A device that is blocked is not heard: internal/domain/device/service/service.go.
use firmflow.Base.{
  ℕ, String, Bool, true, false, not, ◌&&◌, ◌≡◌, refl, sym, ◌∙◌, List, [], ◌∷◌, Option, some, find?,
  any, ◌==◌, arith, subst, Bool-cases, inl, inr, find?-sound,
}
use firmflow.Store.{err, Error, Result, World, ok, Keeps, keep_rules, IsPreorder, exec-Keeps}
use firmflow.Store.Triple.{
  Ends, by_value, by_error, Triple, run-Triple, first-Triple, guard-Triple, bind-Triple, now-Triple,
  weaken-Triple, triple,
}
use firmflow.Store.Partial.{
  Returns, run-Returns, Keeps-Returns, exec-Returns, first-Returns, transaction-Returns,
  new_uuid-Returns, always-Returns,
}
use firmflow.Model.{Device, Tables, update_where}
use firmflow.Db.{audit, append_audit_log}
use firmflow.Device.Service.{device_is_blocked, record_device_connection, set_device_blocked}
use firmflow.Device.Tokens.{set_blocked, of_device_id, set_device_blocked_row}
use firmflow.Device.Scope.{get_device, of_device}
use firmflow.Rbac.Authorizer.{authorize_project}
use firmflow.Device.Types.{ensure_unarchived}
use firmflow.Device.Gate.{found_any}

-- No device of the project has this id and is not blocked.
abbrev unblocked : ℕ → ℕ → Device → Bool
unblocked project_id device_id d = of_device project_id device_id d && not d.blocked

abbrev NoneUnblocked : ℕ → ℕ → Tables → Type 0
NoneUnblocked project_id device_id t = any (unblocked project_id device_id) t.devices ≡ false

now_blocked :
    (project_id device_id id at : ℕ) (xs : List Device)
    → (id == device_id) ≡ true
    → any (unblocked project_id device_id) (update_where (of_device_id id) (set_blocked true at) xs)
      ≡ false
unfolding update_where
now_blocked project_id device_id id at [] e = refl
now_blocked project_id device_id id at (x ∷ xs) e =
    let rest = now_blocked project_id device_id id at xs e in
    elim (Bool-cases (of_device_id id x)) [
      | inl f ↦ rw (f, rest) (ground arith)
      | inr f ↦ rw (f, rest) (ground arith)
    ]

abbrev SameDevices : Tables → Tables → Type 0
SameDevices t u = u.devices ≡ t.devices

same_devices : IsPreorder SameDevices
same_devices = record { refl' = λ t. refl; trans' = λ t u v h k. k ∙ h }

audit-SameDevices : (a : ℕ) (e : String) (q : ℕ) → Keeps SameDevices (audit a e q)
unfolding audit append_audit_log
audit-SameDevices a e q = search (keep_rules, same_devices, exec-Keeps) depth 12

same_id :
    (project_id device_id : ℕ) (d : Device)
    → of_device project_id device_id d ≡ true
    → (d.id == device_id) ≡ true
same_id project_id device_id d h = ground arith

block_row :
    (project_id device_id actor : ℕ)
    → Returns
        (λ t. Unit {0})
        (set_device_blocked_row project_id device_id true actor)
        (λ u. NoneUnblocked project_id device_id)
unfolding set_device_blocked_row get_device
block_row project_id device_id actor = bind-Triple _ _ now-Triple (λ at. transaction-Returns _ (
    bind-Triple {Q = λ d t. (d.id == device_id) ≡ true} _ _
      (weaken-Triple
        (λ d t p.
          same_id project_id device_id d
            (find?-sound (of_device project_id device_id) t.devices d p.1))
        (first-Returns (λ t. find? (of_device project_id device_id) t.devices)))
      (λ d.
        bind-Triple {Q = λ u. NoneUnblocked project_id device_id} _ _
          (exec-Returns _ (λ t e. now_blocked project_id device_id d.id at t.devices e))
          (λ u. bind-Triple _ _ new_uuid-Returns (λ id. exec-Returns _ (λ t p. p))))))

set_blocked-Returns :
    (actor project_id device_id : ℕ)
    → Returns
        (λ t. Unit {0})
        (set_device_blocked actor project_id device_id true)
        (λ u. NoneUnblocked project_id device_id)
unfolding set_device_blocked
set_blocked-Returns actor project_id device_id =
    bind-Triple _ _ (always-Returns (authorize_project project_id actor "device.block")) (λ m.
      bind-Triple _ _ (always-Returns (ensure_unarchived project_id)) (λ u.
        bind-Triple _ _ (block_row project_id device_id actor) (λ v.
          Keeps-Returns (NoneUnblocked project_id device_id)
            (λ s t e p. subst (λ xs. any (unblocked project_id device_id) xs ≡ false) (sym e) p) _
            (audit-SameDevices actor "device.blocked" project_id))))

none_found :
    (project_id device_id : ℕ) (d : Device) (t : Tables)
    → NoneUnblocked project_id device_id t
    → find? (of_device project_id device_id) t.devices ≡ some d
    → not d.blocked ≡ true
    → ⊥
none_found project_id device_id d t n f u =
    let hit = find?-sound (of_device project_id device_id) t.devices d f in
    found_any (of_device project_id device_id) (unblocked project_id device_id) d t.devices f
      (rw (hit, u) refl) n

not_heard :
    (project_id device_id : ℕ) (ip agent endpoint action : String) (version : Option (List ℕ))
    (t0 : Tables)
    → NoneUnblocked project_id device_id t0
    → Triple
        (λ t. t ≡ t0)
        (record_device_connection project_id device_id ip agent endpoint action version)
        (λ u t. ⊥)
        (λ t. t ≡ t0)
unfolding record_device_connection get_device
not_heard project_id device_id ip agent endpoint action version t0 n =
    bind-Triple _ _ (first-Triple t0 (λ t. find? (of_device project_id device_id) t.devices) refl)
      (λ d.
        bind-Triple {Q = λ u t. ⊥} _ _
          (weaken-Triple (λ u t p. none_found project_id device_id d t0 n p.0.1 p.1)
            (guard-Triple (not d.blocked) device_is_blocked (λ t p. p.0)))
          (λ u. triple λ w p. absurd p))

refusal :
    {t0 t : Tables} {r : Result (Unit {0})}
    → Ends (λ u t. ⊥) (λ t. t ≡ t0) r t
    → (e : Error) × (r ≡ err e) × (t ≡ t0)
refusal (by_value a e q) = absurd q
refusal (by_error e f k) = (e, f, k)

-- A device that was blocked is not heard: with the tables that a successful block leaves, the record
-- of a poll or a report of the device, over HTTP or TCP, ends with an error and leaves every table as
-- it was: neither the device's row nor the connection log changes.
pub blocked_unheard :
    (actor project_id device_id : ℕ) (w v : World Tables) (ip agent endpoint action : String)
    (version : Option (List ℕ))
    → (set_device_blocked actor project_id device_id true w).0 ≡ ok tt
    → v.db ≡ (set_device_blocked actor project_id device_id true w).1.db
    → let heard =
        record_device_connection project_id device_id ip agent endpoint action version v in
      (e : Error) × (heard.0 ≡ err e) × (heard.1.db ≡ v.db)
blocked_unheard actor project_id device_id w v ip agent endpoint action version e same =
    let shut = run-Returns (set_blocked-Returns actor project_id device_id) w tt tt e in
    let still = subst (λ t. NoneUnblocked project_id device_id t) (sym same) shut in
    refusal (
      run-Triple (not_heard project_id device_id ip agent endpoint action version v.db still) v
        refl)
