-- ===== src/Rbac/Project/LastOwner.antt =====
-- A project keeps an owner when a member is removed: internal/domain/rbac/service/project_service.go.
use firmflow.Base.{
  ℕ, ◌≡◌, ◌≤◌, refl, ap, sym, subst, ◌∙◌, String, Bool, true, false, not, Bool-cases, inl, inr,
  some, Option-cases, find?, count, leb, arith, ◌==◌, find?-sound,
}
use firmflow.Store.{Result, World, Keeps, IsPreorder, keep_rules, exec-Keeps, forbidden}
use firmflow.Store.Triple.{
  Triple, Ends, by_value, by_error, run-Triple, pure-Triple, query-Triple, exec-Triple, bind-Triple,
  when_not_found-Triple, first-Triple, guard-Triple, with_fact, weaken-Triple, Keeps-Triple,
  stays_at,
}
use firmflow.Model.{Role, ProjectMembership, Tables, slug_owner, delete_where}
use firmflow.Db.{audit, append_audit_log}
use firmflow.Rbac.Repository.{
  Member, find_role, find_member, of_member, owns, is_predefined_slug, get_project,
  get_predefined_role_by_slug, get_membership_for_user, get_role, delete_membership, count_owners,
}
use firmflow.Rbac.Authorizer.{authorize_project, is_owner_role}
use firmflow.Rbac.Project.{ensure_not_archived, another_owner, keeps_an_owner, remove_member}
use firmflow.Rbac.Owners.{count_delete, count_both, count_found}

pub some_injective : {A : Type 0} {a b : A} → some a ≡ some b → a ≡ b
some_injective h = cc

-- The number of owners of a project, by the id of the owner role.
abbrev pub owners : ℕ → ℕ → Tables → ℕ
owners project_id owner_role_id t = count (owns project_id owner_role_id) t.project_memberships

abbrev pub SameMembers : Tables → Tables → Type 0
SameMembers t u = u.project_memberships ≡ t.project_memberships

same_members : IsPreorder SameMembers
same_members = record { refl' = λ t. refl; trans' = λ t u v h k. k ∙ h }

pub audit-SameMembers : (a : ℕ) (e : String) (q : ℕ) → Keeps SameMembers (audit a e q)
unfolding audit append_audit_log
audit-SameMembers a e q = search (keep_rules, same_members, exec-Keeps) depth 12

module _ (t0 : Tables) (project_id owner_id : ℕ) (h : 1 ≤ owners project_id owner_id t0) where
  unfoldable pub Owned : Tables → Type 0
  Owned t = 1 ≤ owners project_id owner_id t

  unfoldable pub Here : Tables → Type 0
  Here t = t ≡ t0

  pub authorize-Triple :
      (q a : ℕ) (key : String) → Triple Here (authorize_project q a key) (λ m. Here) Owned
  unfolding authorize_project get_membership_for_user Owned Here
  authorize-Triple q a key =
      bind-Triple _ _ (when_not_found-Triple _ forbidden (first-Triple t0 (find_member q a) h))
        (λ m. with_fact (λ found.
          bind-Triple _ _ (guard-Triple _ forbidden (stays_at Owned h))
            (λ u. with_fact (λ allowed. pure-Triple m (λ s e. e)))))

  pub archived-Triple : (q : ℕ) → Triple Here (ensure_not_archived q) (λ u. Here) Owned
  unfolding ensure_not_archived get_project Owned Here
  archived-Triple q =
      bind-Triple _ _ (when_not_found-Triple _ _ (first-Triple t0 _ h)) (λ p.
        with_fact (λ found. weaken-Triple (λ u s e. e.0) (guard-Triple _ _ (stays_at Owned h))))

  pub audit-Triple : (a : ℕ) (e : String) → Triple Owned (audit a e project_id) (λ u. Owned) Owned
  unfolding Owned
  audit-Triple a e =
      Keeps-Triple Owned
        (λ s t same p. subst (λ ms. 1 ≤ count (owns project_id owner_id) ms) (sym same) p)
        (audit a e project_id) (audit-SameMembers a e project_id)

  module _ (o : Role) (is_o : find? (is_predefined_slug slug_owner) t0.roles ≡ some o)
      (id_o : o.id ≡ owner_id) where
    unfoldable pub Another : Type 0
    Another = 2 ≤ owners project_id owner_id t0

    counted :
        (r : Role) (n : ℕ)
        → find? (is_predefined_slug slug_owner) t0.roles ≡ some r
        → n ≡ owners project_id r.id t0
        → not (leb n 1) ≡ true
        → Another
    unfolding Another
    counted r n e k l =
        let same : r ≡ o = ground (arith, is_o, e) in
        let same_id : r.id ≡ owner_id = ap (λ (x : Role). x.id) same ∙ id_o in
        let count_is : n ≡ owners project_id owner_id t0 =
          k ∙ ap (λ i. owners project_id i t0) same_id in
        let two : 2 ≤ n = ground arith in omega (arith, two, count_is)

    another_owner-Triple :
        (message : String)
        → Triple Here (another_owner project_id message) (λ u s. Here s × Another) Owned
    unfolding another_owner get_predefined_role_by_slug count_owners Here Owned
    another_owner-Triple message = bind-Triple _ _ (first-Triple t0 _ h) (λ r. with_fact (λ found.
        bind-Triple {Q = λ n s. (s ≡ t0) × (n ≡ owners project_id r.id t0)} _ _
          (query-Triple _ (λ s e. (e, ap (owners project_id r.id) e)) (stays_at Owned h))
          (λ n. with_fact (λ size.
            weaken-Triple (λ u s e. (e.0, counted r n found size e.1))
              (guard-Triple _ _ (stays_at Owned h))))))

    pub keeps_an_owner-Triple :
        (gives_up : Bool) (message : String)
        → Triple Here
            (keeps_an_owner project_id gives_up message)
            (λ u s. Here s × (gives_up ≡ true → Another))
            Owned
    unfolding keeps_an_owner
    keeps_an_owner-Triple true message =
        weaken-Triple (λ u s e. (e.0, λ k. e.1)) (another_owner-Triple message)
    keeps_an_owner-Triple false message = pure-Triple tt (λ s e. (e, λ k. absurd cc))

    module _ (by_id : find_role owner_id t0 ≡ some o) (target_user_id : ℕ)
        (unique : count (of_member project_id target_user_id) t0.project_memberships ≤ 1) where
      pub owner_is_owner : is_owner_role o ≡ true
      unfolding is_owner_role
      owner_is_owner =
          let sound = find?-sound (is_predefined_slug slug_owner) t0.roles o is_o in
          ground (arith, sound)

      pub not_its_role :
          (m : ProjectMembership) (r : Role)
          → find_role m.role_id t0 ≡ some r
          → is_owner_role r ≡ false
          → owns project_id owner_id m ≡ false
      not_its_role m r e f = elim (Bool-cases (m.role_id == owner_id)) [
        | inl k ↦
            let same_id : m.role_id ≡ owner_id = ground (arith, k) in
            let found : find_role owner_id t0 ≡ some r =
              ap (λ i. find_role i t0) (sym same_id) ∙ e in
            let same : r ≡ o = ground (arith, found, by_id) in
            absurd (cc (owner_is_owner, f, ap is_owner_role same))
        | inr k ↦ ground (arith, k)
      ]

      pub row_of :
          (tm : Member)
          → find_member project_id target_user_id t0 ≡ some tm
          → find? (of_member project_id target_user_id) t0.project_memberships ≡ some tm.membership
      row_of tm e =
          elim (Option-cases (find? (of_member project_id target_user_id) t0.project_memberships)) [
            | inl k ↦ absurd cc
            | inr (m, k) ↦
                k ∙ ap some (ap (λ (x : Member). x.membership) (some_injective (rw k at e)))
          ]

      still_owned :
          (tm : Member) (r : Role)
          → find_member project_id target_user_id t0 ≡ some tm
          → find_role tm.membership.role_id t0 ≡ some r
          → (is_owner_role r ≡ true → Another)
          → 1
            ≤ count
                (owns project_id owner_id)
                (delete_where (of_member project_id target_user_id) t0.project_memberships)
      unfolding Another
      still_owned tm r e f k =
          let ms = t0.project_memberships in
          let p = owns project_id owner_id in
          let q = of_member project_id target_user_id in
          let split = count_delete p q ms in
          elim (Bool-cases (is_owner_role r)) [
            | inl is_owner ↦ omega (arith, split, count_both p q ms, unique, k is_owner)
            | inr is_not ↦
                let none_lost =
                  count_found p q ms tm.membership (row_of tm e) unique
                    (not_its_role tm.membership r f is_not) in
                omega (arith, split, none_lost, h)
          ]

      delete-Triple :
          (tm : Member) (r : Role)
          → find_member project_id target_user_id t0 ≡ some tm
          → find_role tm.membership.role_id t0 ≡ some r
          → (is_owner_role r ≡ true → Another)
          → Triple Here (delete_membership project_id target_user_id) (λ u. Owned) Owned
      unfolding delete_membership Here Owned
      delete-Triple tm r e f k =
          exec-Triple _
            (λ s same.
              subst
                (λ (t : Tables).
                  1
                  ≤ count (owns project_id owner_id)
                      (delete_where (of_member project_id target_user_id) t.project_memberships))
                (sym same) (still_owned tm r e f k))
            (stays_at Owned h)

      remove_member-Triple :
          (actor_user_id : ℕ)
          → Triple Here (remove_member actor_user_id project_id target_user_id) (λ u. Owned) Owned
      unfolding remove_member get_membership_for_user get_role Here Owned
      remove_member-Triple a = bind-Triple _ _ (authorize-Triple project_id a "member.remove") (λ m.
          bind-Triple _ _ (archived-Triple project_id) (λ u.
            bind-Triple _ _ (when_not_found-Triple _ _ (first-Triple t0 _ h)) (λ tm.
              with_fact (λ found. bind-Triple _ _ (first-Triple t0 _ h) (λ r. with_fact (λ has_role.
                bind-Triple _ _ (keeps_an_owner-Triple _ _) (λ v. with_fact (λ other.
                  bind-Triple _ _ (delete-Triple tm r found has_role other)
                    (λ x. audit-Triple a "member.removed")))))))))

pub either_way :
    {A : Type 0} {E : Tables → Type 0} {r : Result A} {t : Tables} → Ends (λ a. E) E r t → E t
either_way (by_value a e q) = q
either_way (by_error x e q) = q

-- With an owner role whose id finds it, and no user twice in the project, a project that has an
-- owner has one after `RemoveMember`, whoever calls it for whichever member, whatever it returns
-- and whichever statements fail.
pub remove_member-owners :
    (w : World Tables) (actor_user_id project_id target_user_id : ℕ) (o : Role)
    → find? (is_predefined_slug slug_owner) w.db.roles ≡ some o
    → find_role o.id w.db ≡ some o
    → count (of_member project_id target_user_id) w.db.project_memberships ≤ 1
    → 1 ≤ owners project_id o.id w.db
    → 1 ≤ owners project_id o.id (remove_member actor_user_id project_id target_user_id w).1.db
unfolding Owned Here
remove_member-owners w actor_user_id project_id target_user_id o is_o by_id unique h =
    either_way {E = Owned w.db project_id o.id h} (
      run-Triple
        (remove_member-Triple w.db project_id o.id h o is_o refl by_id target_user_id unique
          actor_user_id)
        w refl)
