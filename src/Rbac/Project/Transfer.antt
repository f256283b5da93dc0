-- ===== src/Rbac/Project/Transfer.antt =====
-- The transfer of a project to another owner: `TransferOwnership` of
-- internal/domain/rbac/service/project_service.go and of internal/domain/rbac/repository/repository.go.
pub mod Rows
use firmflow.Base.{
  str_eq, Option-cases, ℕ, String, Bool, true, false, not, ◌&&◌, if◌then◌else◌, ◌≡◌, ◌≤◌, refl, sym,
  ap, subst, ◌∙◌, List, [], ◌∷◌, Option, none, some, find?, find?-sound, count, ◌==◌, Bool-cases,
  inl, inr, arith,
}
use firmflow.Store.{plain, forbidden, World, ok, Keeps}
use firmflow.Store.Triple.{
  bind-Triple, now-Triple, first-Triple, with_fact, pure-Triple, weaken-Triple,
}
use firmflow.Store.Partial.{
  before-Returns, Returns, run-Returns, guard-Returns, exec-Returns, catch-Returns,
  transaction-Returns, Keeps-Returns,
}
use firmflow.Model.{Tables, Role, ProjectMembership, slug_owner, slug_admin, update_where}
use firmflow.Db.{audit}
use firmflow.Rbac.Repository.{
  get_predefined_role_by_slug, get_membership_for_user, get_role, is_predefined_slug, find_role,
  find_member, of_member, set_role_of_row, transfer_ownership_rows,
}
use firmflow.Rbac.Authorizer.{is_predefined_owner, is_owner_role, must_be_owner}
use firmflow.Rbac.Project.{Member, transfer_ownership}
use firmflow.Rbac.Project.Invited.{unarchived-Returns}
use firmflow.Rbac.Project.Transfer.Rows.{UniqueIds, Swapped, swap, with_id, given}
use firmflow.Rbac.Project.LastOwner.{some_injective, SameMembers, audit-SameMembers}

is_false : (b : Bool) → not b ≡ true → b ≡ false
is_false b h = ground arith

set_role-Returns :
    (id role_id at : ℕ) (xs : List ProjectMembership)
    → Returns
        (λ (t : Tables). t.project_memberships ≡ xs)
        (set_role_of_row id role_id at)
        (λ u t. t.project_memberships ≡ update_where (with_id id) (given role_id at) xs)
unfolding set_role_of_row
set_role-Returns id role_id at xs =
    exec-Returns _ (λ t e. ap (update_where (with_id id) (given role_id at)) e)

module _ (t0 : Tables) (one : UniqueIds t0.project_memberships) (q a b : ℕ) where
  abbrev Here : Tables → Type 0
  Here t = t ≡ t0

  abbrev SwappedIn : ℕ → ℕ → Tables → Type 0
  SwappedIn owner_id admin_id t =
      Swapped q a b owner_id admin_id t0.project_memberships t.project_memberships

  rows-Swapped :
      (owner_id admin_id : ℕ)
      → Returns Here
          (transfer_ownership_rows q a b owner_id admin_id)
          (λ u. SwappedIn owner_id admin_id)
  unfolding transfer_ownership_rows get_role
  rows-Swapped owner_id admin_id = transaction-Returns _ (
      bind-Triple _ _ (first-Triple t0 (λ t. find? (of_member q a) t.project_memberships) tt)
        (λ from_row. with_fact (λ from_found.
          bind-Triple _ _ (first-Triple t0 (find_role from_row.role_id) tt) (λ r.
            with_fact (λ role_found.
              bind-Triple _ _
                (guard-Returns (r.is_predefined && str_eq r.slug slug_owner)
                  (plain "only owner can transfer ownership"))
                (λ g. with_fact (λ owns.
                  bind-Triple _ _
                    (first-Triple t0 (λ t. find? (of_member q b) t.project_memberships) tt)
                    (λ to_row. with_fact (λ to_found.
                      bind-Triple _ _
                        (guard-Returns (not (a == b)) (plain "cannot transfer to self"))
                        (λ k. with_fact (λ differ. bind-Triple _ _ now-Triple (λ at.
                          let xs = t0.project_memberships in
                          let apart_ab = is_false (a == b) differ in
                          bind-Triple _ _
                            (before-Returns (λ t e. ap (λ u. u.project_memberships) e)
                              (set_role-Returns from_row.id admin_id at xs))
                            (λ u.
                              weaken-Triple
                                (λ v t e.
                                  subst (λ ys. Swapped q a b owner_id admin_id xs ys) (sym e)
                                    (swap q xs one a b from_row to_row from_found to_found apart_ab
                                      admin_id owner_id at))
                                (set_role-Returns to_row.id owner_id at _))))))))))))))

-- What a transfer that succeeds leaves, from the tables before.
pub record Transferred (q a b : ℕ) (t0 t : Tables) : Type 0 where
  actor : Member
  is_member : find_member q a t0 ≡ some actor
  is_owner : is_owner_role actor.role ≡ true
  owner_role : Role
  is_owner_role_row : find? (is_predefined_slug slug_owner) t0.roles ≡ some owner_role
  admin_role : Role
  is_admin_role_row : find? (is_predefined_slug slug_admin) t0.roles ≡ some admin_role
  swapped : Swapped q a b owner_role.id admin_role.id t0.project_memberships t.project_memberships

-- The audit log does not matter.
still :
    (q a b : ℕ) (t0 s t : Tables)
    → SameMembers s t
    → Transferred q a b t0 s
    → Transferred q a b t0 t
still q a b t0 s t e h = record {
  actor = h.actor;
  is_member = h.is_member;
  is_owner = h.is_owner;
  owner_role = h.owner_role;
  is_owner_role_row = h.is_owner_role_row;
  admin_role = h.admin_role;
  is_admin_role_row = h.is_admin_role_row;
  swapped =
      subst (λ ms. Swapped q a b h.owner_role.id h.admin_role.id t0.project_memberships ms) (sym e)
        h.swapped;
}

transfer-Transferred :
    (q a b : ℕ) (t0 : Tables)
    → UniqueIds t0.project_memberships
    → Returns (λ t. t ≡ t0) (transfer_ownership a q b) (λ u. Transferred q a b t0)
unfolding transfer_ownership must_be_owner is_predefined_owner get_membership_for_user
    get_predefined_role_by_slug
transfer-Transferred q a b t0 one =
    bind-Triple {Q = λ u t. t ≡ t0} _ _ (unarchived-Returns t0 q) (λ u.
      bind-Triple _ _ (first-Triple t0 (find_member q a) tt) (λ actor. with_fact (λ is_member.
        bind-Triple _ _ (guard-Returns (is_owner_role actor.role) forbidden) (λ v.
          with_fact (λ is_owner. bind-Triple _ _ (first-Triple t0 _ tt) (λ owner_role.
            with_fact (λ is_o. bind-Triple _ _ (first-Triple t0 _ tt) (λ admin_role.
              with_fact (λ is_a.
                bind-Triple {Q = λ m t. t ≡ t0} _ _
                  (weaken-Triple (λ m t p. p.0)
                    (catch-Returns _ _ (first-Triple t0 (find_member q b) tt)))
                  (λ m.
                    bind-Triple {Q = λ x. Transferred q a b t0} _ _
                      (weaken-Triple
                        (λ x t s. record {
                          actor = actor;
                          is_member = is_member;
                          is_owner = is_owner;
                          owner_role = owner_role;
                          is_owner_role_row = is_o;
                          admin_role = admin_role;
                          is_admin_role_row = is_a;
                          swapped = s;
                        })
                        (catch-Returns _ _ (rows-Swapped t0 one q a b owner_role.id admin_role.id)))
                      (λ x.
                        Keeps-Returns (Transferred q a b t0) (still q a b t0) _
                          (audit-SameMembers a "project.ownership_transferred" q))))))))))))

-- A transfer that succeeds was asked for by an owner of the project, and swaps the roles: where no
-- two memberships have one id, the new owner is found with the role of an owner, the old one with
-- that of an admin, and the membership of each other user is found as it was.
pub transfer_ownership-Transferred :
    (actor_user_id project_id new_owner_user_id : ℕ) (w : World Tables)
    → UniqueIds w.db.project_memberships
    → (transfer_ownership actor_user_id project_id new_owner_user_id w).0 ≡ ok tt
    → Transferred project_id actor_user_id new_owner_user_id w.db
        (transfer_ownership actor_user_id project_id new_owner_user_id w).1.db
transfer_ownership-Transferred a q b w one e =
    run-Returns (transfer-Transferred q a b w.db one) w refl tt e
