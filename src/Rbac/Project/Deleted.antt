-- ===== src/Rbac/Project/Deleted.antt =====
-- A deleted project: internal/domain/rbac/repository/project_queries.go and the lookup by which its
-- devices would sign in, internal/domain/device/repository/repository.go.
use firmflow.Base.{
  ℕ, String, Bool, true, false, not, ◌&&◌, ◌≡◌, refl, sym, ap, ◌∙◌, List, [], ◌∷◌, is_some,
  find?-sound, any, count, ◌==◌, ltb, arith, subst, Bool-cases, inl, inr,
}
use firmflow.Store.{World, ok, Keeps, keep_rules, IsPreorder, exec-Keeps, plain}
use firmflow.Store.Triple.{bind-Triple, now-Triple, weaken-Triple}
use firmflow.Store.Partial.{
  Returns, run-Returns, Keeps-Returns, guard-Returns, query-Returns, exec-Returns, catch-Returns,
  transaction-Returns, always-Returns,
}
use firmflow.Model.{Device, Tables, update_where}
use firmflow.Db.{audit, append_audit_log}
use firmflow.Device.Gate.{found_any, lookup-Admitted}
use firmflow.Rbac.Project.Lifecycle.{
  map_delete_project_error, must_be_project_owner, revoked_device, blocks_delete,
  count_blocking_campaigns, delete_project, delete_project_soft, device_of,
  revoke_devices_and_disable_polling,
}
use firmflow.Device.Tokens.{get_device_by_active_token_hash, of_device_id}
use firmflow.Rbac.Authorizer.{authorize_project}

-- A device of the project that could still sign in.
abbrev admissible : ℕ → Device → Bool
admissible project_id d = device_of project_id d && not (is_some d.token_revoked_at)

-- No campaign of the project can still run, and none of its devices can sign in.
pub record Closed (project_id : ℕ) (t : Tables) : Type 0 where
  no_campaign : any (blocks_delete project_id) t.campaigns ≡ false
  no_device : any (admissible project_id) t.devices ≡ false

none_counted :
    {A : Type 0} (p : A → Bool) (xs : List A) → ltb 0 (count p xs) ≡ false → any p xs ≡ false
none_counted p [] e = refl
none_counted p (x ∷ xs) e = elim (Bool-cases (p x)) [
  | inl f ↦ absurd (ground arith)
  | inr f ↦ rw f (none_counted p xs (ground arith))
]

all_revoked :
    (project_id at : ℕ) (xs : List Device)
    → any (admissible project_id) (update_where (device_of project_id) (revoked_device at) xs)
      ≡ false
unfolding update_where
all_revoked project_id at [] = refl
all_revoked project_id at (x ∷ xs) =
    let rest = all_revoked project_id at xs in
    elim (Bool-cases (device_of project_id x)) [
      | inl e ↦ rw (e, rest) (ground arith)
      | inr e ↦ rw (e, rest, e) refl
    ]

abbrev NoCampaign : ℕ → Tables → Type 0
NoCampaign project_id t = any (blocks_delete project_id) t.campaigns ≡ false

is_false : (b : Bool) → not b ≡ true → b ≡ false
is_false b h = ground arith

no_blocking :
    (project_id : ℕ)
    → Returns
        (λ t. Unit {0})
        (count_blocking_campaigns project_id)
        (λ n t. n ≡ count (blocks_delete project_id) t.campaigns)
unfolding count_blocking_campaigns
no_blocking project_id =
    query-Returns (λ t. count (blocks_delete project_id) t.campaigns) (λ t p. refl)

revoke-Closed :
    (project_id : ℕ)
    → Returns
        (NoCampaign project_id)
        (revoke_devices_and_disable_polling project_id)
        (λ u. Closed project_id)
unfolding revoke_devices_and_disable_polling
revoke-Closed project_id = bind-Triple _ _ now-Triple (λ at.
    exec-Returns _
      (λ t p. record { no_campaign = p; no_device = all_revoked project_id at t.devices }))

delete_soft-Closed :
    (project_id : ℕ)
    → Returns (λ t. Unit {0}) (delete_project_soft project_id) (λ u. Closed project_id)
unfolding delete_project_soft
delete_soft-Closed project_id = transaction-Returns _ (
    bind-Triple _ _ (no_blocking project_id) (λ n.
      bind-Triple {Q = λ u. NoCampaign project_id} _ _
        (weaken-Triple
          (λ u t p.
            none_counted (blocks_delete project_id) t.campaigns
              (subst (λ m. ltb 0 m ≡ false) p.0 (is_false (ltb 0 n) p.1)))
          (guard-Returns (not (ltb 0 n)) (plain "blocking_campaigns")))
        (λ u. bind-Triple _ _ (revoke-Closed project_id) (λ v. bind-Triple _ _ now-Triple (λ at.
          exec-Returns _
            (λ t p. record { no_campaign = p.no_campaign; no_device = p.no_device }))))))

abbrev Apart : Tables → Tables → Type 0
Apart t u = (u.devices ≡ t.devices) × (u.campaigns ≡ t.campaigns)

apart : IsPreorder Apart
apart = record { refl' = λ t. (refl, refl); trans' = λ t u v h k. (k.0 ∙ h.0, k.1 ∙ h.1) }

audit-Apart : (a : ℕ) (e : String) (q : ℕ) → Keeps Apart (audit a e q)
unfolding audit append_audit_log
audit-Apart a e q = search (keep_rules, apart, exec-Keeps) depth 12

stays-Closed :
    (project_id : ℕ) (s t : Tables) → Apart s t → Closed project_id s → Closed project_id t
stays-Closed project_id s t h c = record {
  no_campaign = ap (any (blocks_delete project_id)) h.1 ∙ c.no_campaign;
  no_device = ap (any (admissible project_id)) h.0 ∙ c.no_device;
}

delete-Closed :
    (actor project_id : ℕ)
    → Returns (λ t. Unit {0}) (delete_project actor project_id) (λ u. Closed project_id)
unfolding delete_project
delete-Closed actor project_id =
    bind-Triple _ _ (always-Returns (authorize_project project_id actor "project.delete")) (λ m.
      bind-Triple _ _ (always-Returns (must_be_project_owner project_id actor)) (λ u.
        bind-Triple _ _ (catch-Returns _ map_delete_project_error (delete_soft-Closed project_id))
          (λ v.
            Keeps-Returns (Closed project_id) (stays-Closed project_id) _
              (audit-Apart actor "project.deleted" project_id))))

-- A project that was deleted is closed: no campaign of it is left that is not completed or
-- cancelled, and every device of it that is not deleted has its tokens revoked.
pub delete_project-Closed :
    (actor project_id : ℕ) (w : World Tables)
    → (delete_project actor project_id w).0 ≡ ok tt
    → Closed project_id (delete_project actor project_id w).1.db
delete_project-Closed actor project_id w e = run-Returns (delete-Closed actor project_id) w tt tt e

still_admissible :
    (project_id device_id : ℕ) (d : Device)
    → (d.project_id == project_id) ≡ true
    → of_device_id device_id d ≡ true
    → not (is_some d.token_revoked_at) ≡ true
    → admissible project_id d ≡ true
still_admissible project_id device_id d k l n = rw (k, n) (ground arith)

-- No device of a deleted project signs in: with the tables that the deletion leaves, a lookup by any
-- token hash leads to a device of another project.
pub delete_project_shuts :
    (actor project_id : ℕ) (w v : World Tables) (hash : String) (d : Device)
    → (delete_project actor project_id w).0 ≡ ok tt
    → v.db ≡ (delete_project actor project_id w).1.db
    → (get_device_by_active_token_hash hash v).0 ≡ ok d
    → (d.project_id == project_id) ≡ false
delete_project_shuts actor project_id w v hash d e same f =
    let closed = delete_project-Closed actor project_id w e in
    let adm = lookup-Admitted hash v d f in
    let live = find?-sound (of_device_id adm.token.device_id) v.db.devices d adm.device_found in
    elim (Bool-cases (d.project_id == project_id)) [
      | inl k ↦ absurd (
          found_any (of_device_id adm.token.device_id) (admissible project_id) d v.db.devices
            adm.device_found
            (still_admissible project_id adm.token.device_id d k live adm.not_revoked)
            (subst (λ t. any (admissible project_id) t.devices ≡ false) (sym same)
              closed.no_device))
      | inr k ↦ k
    ]
