-- ===== src/Rbac/Project/RoleChange.antt =====
-- A project keeps an owner when a member's role changes:
-- internal/domain/rbac/service/project_service.go.
use firmflow.Base.{
  ℕ, ◌≡◌, ◌≤◌, refl, sym, subst, true, ◌&&◌, not, Bool-cases, inl, inr, some, find?, count, arith,
}
use firmflow.Store.{World, bad_request}
use firmflow.Store.Triple.{
  Triple, run-Triple, pure-Triple, fail-Triple, exec-Triple, bind-Triple, catch-Triple,
  when_not_found-Triple, first-Triple, guard-Triple, with_fact, weaken-Triple, stays_at, now-Triple,
  if-Triple,
}
use firmflow.Model.{Role, ProjectMembership, Tables, slug_owner, update_where}
use firmflow.Rbac.Repository.{
  Member, find_role, find_member, of_member, owns, is_predefined_slug, get_membership_for_user,
  get_role, update_membership_role,
}
use firmflow.Rbac.Authorizer.{is_owner_role, must_be_owner, validate_assignable_role}
use firmflow.Rbac.Project.{owner_acts, update_member_role}
use firmflow.Rbac.Owners.{count_update, count_update_all, count_both, count_found}
use firmflow.Rbac.Project.LastOwner.{
  owners, Owned, Here, Another, authorize-Triple, archived-Triple, audit-Triple,
  keeps_an_owner-Triple, not_its_role, row_of, either_way,
}

-- The row after the change.
with_new_role : ℕ → ℕ → ProjectMembership → ProjectMembership
with_new_role new_role_id at m = record m { role_id = new_role_id; updated_at = at }

module _ (t0 : Tables) (project_id owner_id : ℕ) (h : 1 ≤ owners project_id owner_id t0) where
  Good : Tables → Type 0
  Good t = 1 ≤ owners project_id owner_id t

  validate-Triple :
      (r : Role) → Triple (λ s. s ≡ t0) (validate_assignable_role project_id r) (λ u s. s ≡ t0) Good
  unfolding validate_assignable_role Good
  validate-Triple r =
      if-Triple _ _ _ (pure-Triple tt (λ s e. e))
        (if-Triple _ _ _ (pure-Triple tt (λ s e. e)) (fail-Triple _ (stays_at Good h)))

  owner_acts-Triple :
      (a : ℕ) (r : Role) → Triple (λ s. s ≡ t0) (owner_acts project_id a r) (λ u s. s ≡ t0) Good
  unfolding owner_acts must_be_owner get_membership_for_user Good
  owner_acts-Triple a r =
      if-Triple _ _ _
        (bind-Triple _ _ (first-Triple t0 _ h) (λ m.
          with_fact (λ found. weaken-Triple (λ u s e. e.0) (guard-Triple _ _ (stays_at Good h)))))
        (pure-Triple tt (λ s e. e))

  module _ (o : Role) (is_o : find? (is_predefined_slug slug_owner) t0.roles ≡ some o)
      (id_o : o.id ≡ owner_id) (by_id : find_role owner_id t0 ≡ some o) (target_user_id : ℕ)
      (unique : count (of_member project_id target_user_id) t0.project_memberships ≤ 1)
      (only : (i : ℕ) (r : Role)
        → find_role i t0 ≡ some r
        → is_owner_role r ≡ true
        → i ≡ owner_id) where
    new_owner :
        (at : ℕ) (m : ProjectMembership)
        → of_member project_id target_user_id m ≡ true
        → owns project_id owner_id (with_new_role owner_id at m) ≡ true
    unfolding with_new_role
    new_owner at m e = ground (arith, e)

    still_owned :
        (tm : Member) (old new : Role) (new_role_id at : ℕ)
        → find_member project_id target_user_id t0 ≡ some tm
        → find_role tm.membership.role_id t0 ≡ some old
        → find_role new_role_id t0 ≡ some new
        → ((is_owner_role old && not (is_owner_role new)) ≡ true
            → Another t0 project_id owner_id h o is_o id_o)
        → 1
          ≤ count (owns project_id owner_id) (
              update_where
                (of_member project_id target_user_id)
                (with_new_role new_role_id at)
                t0.project_memberships)
    unfolding Another
    still_owned tm old new new_role_id at e f g k =
        let ms = t0.project_memberships in
        let p = owns project_id owner_id in
        let q = of_member project_id target_user_id in
        let split = count_update p q (with_new_role new_role_id at) ms in
        elim (Bool-cases (is_owner_role new)) [
          | inl is_new ↦
              let same : new_role_id ≡ owner_id = only new_role_id new g is_new in
              subst (λ (i : ℕ). 1 ≤ count p (update_where q (with_new_role i at) ms)) (sym same)
                (omega
                  (arith, count_update_all p q (with_new_role owner_id at) (new_owner at) ms, h))
          | inr not_new ↦ elim (Bool-cases (is_owner_role old)) [
            | inl is_old ↦
                let gives_up : (is_owner_role old && not (is_owner_role new)) ≡ true =
                  rw is_old (rw not_new refl) in
                omega (arith, split, count_both p q ms, unique, k gives_up)
            | inr not_old ↦
                let none_lost =
                  count_found p q ms tm.membership
                    (row_of t0 project_id owner_id h o is_o id_o by_id target_user_id unique tm e)
                    unique
                    (not_its_role t0 project_id owner_id h o is_o id_o by_id target_user_id unique
                      tm.membership old f not_old) in
                omega (arith, split, none_lost, h)
          ]
        ]

    change-Triple :
        (tm : Member) (old new : Role) (new_role_id : ℕ)
        → find_member project_id target_user_id t0 ≡ some tm
        → find_role tm.membership.role_id t0 ≡ some old
        → find_role new_role_id t0 ≡ some new
        → ((is_owner_role old && not (is_owner_role new)) ≡ true
            → Another t0 project_id owner_id h o is_o id_o)
        → Triple
            (λ s. s ≡ t0)
            (update_membership_role project_id target_user_id new_role_id)
            (λ u. Good)
            Good
    unfolding update_membership_role Good with_new_role
    change-Triple tm old new new_role_id e f g k =
        bind-Triple {Q = λ at s. s ≡ t0} _ _ now-Triple (λ at.
          exec-Triple _
            (λ s same.
              subst
                (λ (t : Tables).
                  1
                  ≤ count (owns project_id owner_id) (
                      update_where (of_member project_id target_user_id)
                        (with_new_role new_role_id at) t.project_memberships))
                (sym same) (still_owned tm old new new_role_id at e f g k))
            (stays_at Good h))

    update_member_role-Triple :
        (a new_role_id : ℕ)
        → Triple
            (λ s. s ≡ t0)
            (update_member_role a project_id target_user_id new_role_id)
            (λ u. Good)
            Good
    unfolding update_member_role get_membership_for_user get_role Good Here Owned
    update_member_role-Triple a new_role_id =
        bind-Triple _ _
          (authorize-Triple t0 project_id owner_id h project_id a "member.update_role")
          (λ m. bind-Triple _ _ (archived-Triple t0 project_id owner_id h project_id) (λ u.
            bind-Triple _ _
              (catch-Triple _ _ (first-Triple t0 (find_role new_role_id) h)
                (λ x. fail-Triple (bad_request "invalid role") (λ s e. e)))
              (λ new. with_fact (λ is_new. bind-Triple _ _ (validate-Triple new) (λ v.
                bind-Triple _ _ (when_not_found-Triple _ _ (first-Triple t0 _ h)) (λ tm.
                  with_fact (λ found. bind-Triple _ _ (first-Triple t0 _ h) (λ old.
                    with_fact (λ is_old. bind-Triple _ _ (owner_acts-Triple a new) (λ x.
                      bind-Triple _ _
                        (keeps_an_owner-Triple t0 project_id owner_id h o is_o id_o _ _)
                        (λ y. with_fact (λ other.
                          bind-Triple _ _
                            (change-Triple tm old new new_role_id found is_old is_new other)
                            (λ z.
                              audit-Triple t0 project_id owner_id h a
                                "member.role_updated")))))))))))))

-- With an owner role whose id finds it and that is the only role for which the code takes an owner,
-- and no user twice in the project, a project that has an owner has one after `UpdateMemberRole`,
-- whoever calls it for whichever member and role, whatever it returns and whichever statements
-- fail.
pub update_member_role-owners :
    (w : World Tables) (actor_user_id project_id target_user_id new_role_id : ℕ) (o : Role)
    → find? (is_predefined_slug slug_owner) w.db.roles ≡ some o
    → find_role o.id w.db ≡ some o
    → ((i : ℕ) (r : Role) → find_role i w.db ≡ some r → is_owner_role r ≡ true → i ≡ o.id)
    → count (of_member project_id target_user_id) w.db.project_memberships ≤ 1
    → 1 ≤ owners project_id o.id w.db
    → 1
      ≤ owners project_id o.id
          (update_member_role actor_user_id project_id target_user_id new_role_id w).1.db
unfolding Good
update_member_role-owners w a project_id target_user_id new_role_id o is_o by_id only unique h =
    either_way {E = Good w.db project_id o.id h} (
      run-Triple
        (update_member_role-Triple w.db project_id o.id h o is_o refl by_id target_user_id unique
          only a new_role_id)
        w refl)
