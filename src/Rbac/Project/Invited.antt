-- ===== src/Rbac/Project/Invited.antt =====
-- Who may be invited: `InviteMember` of internal/domain/rbac/service/project_service.go.
use firmflow.Base.{
  ◌&&◌, if◌then◌else◌, is_none, subst, ◌∙◌, sym, List, ap, ℕ, String, Bool, true, false, not, ◌≡◌,
  refl, some, any, arith,
}
use firmflow.Store.{World, forbidden, bad_request, fail, pure, ok}
use firmflow.Store.Triple.{bind-Triple, first-Triple, with_fact, pure-Triple, weaken-Triple}
use firmflow.Store.Partial.{
  before-Returns, Returns, run-Returns, guard-Returns, if-Returns, catch-Returns, fail-Returns,
  query-Returns, always-Returns,
}
use firmflow.Model.{Tables, Role, User}
use firmflow.Rbac.Repository.{
  get_project, has_optional_id, get_membership_for_user, get_role, Member, find_member, find_role,
  of_member,
}
use firmflow.Rbac.Authorizer.{
  is_predefined_owner, authorize_project, is_owner_role, must_be_owner, role_has_permission,
  validate_assignable_role,
}
use firmflow.Rbac.Project.Lifecycle.{invite_member, owner_invites, not_a_member}
use firmflow.Rbac.Project.{ensure_not_archived}
use firmflow.Auth.External.{External}
use firmflow.Auth.Repository.{find_user_by_email, find_user_by_email_in, normalize_email}
use firmflow.Rbac.Project.LastOwner.{some_injective}

-- What the tables before an invitation say when it succeeds.
pub record Invited (address : List ℕ) (actor_user_id project_id role_id : ℕ) (t : Tables)
    : Type 0 where
  actor : Member
  is_member : find_member project_id actor_user_id t ≡ some actor
  may_invite : role_has_permission actor.role "member.invite" ≡ true
  role : Role
  role_found : find_role role_id t ≡ some role
  owner_by_owner : is_owner_role role ≡ true → is_owner_role actor.role ≡ true
  user : User
  user_found : find_user_by_email_in address t ≡ some user
  newcomer : any (of_member project_id user.id) t.project_memberships ≡ false

is_false : (b : Bool) → not b ≡ true → b ≡ false
is_false b h = ground arith

module _ (t0 : Tables) where
  abbrev pub Here : Tables → Type 0
  Here t = t ≡ t0

  authorize-Returns :
      (project_id user_id : ℕ) (key : String)
      → Returns Here (authorize_project project_id user_id key) (λ m t.
        Here t
        × ((find_member project_id user_id t0 ≡ some m) × (role_has_permission m.role key ≡ true)))
  unfolding authorize_project get_membership_for_user
  authorize-Returns project_id user_id key =
      bind-Triple _ _ (catch-Returns _ _ (first-Triple t0 (find_member project_id user_id) tt))
        (λ m. with_fact (λ found.
          bind-Triple _ _ (guard-Returns _ forbidden)
            (λ u. pure-Triple m (λ t p. (p.0, (found, p.1))))))

  -- An owner is invited by an owner.
  owner_invites-Returns :
      (project_id actor_user_id : ℕ) (role : Role) (m : Member)
      → find_member project_id actor_user_id t0 ≡ some m
      → Returns Here
          (owner_invites project_id actor_user_id role)
          (λ u t. Here t × (is_owner_role role ≡ true → is_owner_role m.role ≡ true))
  unfolding owner_invites get_membership_for_user must_be_owner is_predefined_owner
  owner_invites-Returns project_id actor_user_id role m found =
      if-Returns (is_owner_role role) _ _
        (λ e. bind-Triple _ _ (first-Triple t0 (find_member project_id actor_user_id) tt) (λ n.
          with_fact (λ again.
            let same : n ≡ m = some_injective (sym again ∙ found) in
            weaken-Triple (λ u t p. (p.0, λ r. subst (λ k. is_owner_role k.role ≡ true) same p.1))
              (catch-Returns _ (λ x. forbidden) (guard-Returns (is_owner_role n.role) forbidden)))))
        (λ e. pure-Triple tt (λ t h. (h, λ r. absurd (cc (e, r)))))

  not_a_member-Returns :
      (project_id user_id : ℕ)
      → Returns Here
          (not_a_member project_id user_id)
          (λ u t. Here t × (any (of_member project_id user_id) t0.project_memberships ≡ false))
  unfolding not_a_member
  not_a_member-Returns project_id user_id =
      bind-Triple
        {Q = λ b t. Here t × (b ≡ any (of_member project_id user_id) t0.project_memberships)} _ _
        (query-Returns _
          (λ t e. (e, ap (λ u. any (of_member project_id user_id) u.project_memberships) e)))
        (λ b. with_fact (λ same.
          weaken-Triple (λ u t p. (p.0, sym same ∙ is_false b p.1)) (guard-Returns (not b) _)))

  -- The two tests before: they read, and pass or fail.
  assignable-Returns :
      (project_id : ℕ) (role : Role)
      → Returns Here (validate_assignable_role project_id role) (λ u. Here)
  unfolding validate_assignable_role
  assignable-Returns project_id role =
      if-Returns (role.is_predefined && is_none role.project_id) (pure tt)
        (if not role.is_predefined && has_optional_id role.project_id project_id
          then pure tt
          else fail (bad_request "role does not belong to this project"))
        (λ e. pure-Triple tt (λ t h. h))
        (λ e.
          if-Returns (not role.is_predefined && has_optional_id role.project_id project_id)
            (pure tt) (fail (bad_request "role does not belong to this project"))
            (λ f. pure-Triple tt (λ t h. h)) (λ f. fail-Returns _))

  pub unarchived-Returns :
      (project_id : ℕ) → Returns Here (ensure_not_archived project_id) (λ u. Here)
  unfolding ensure_not_archived get_project
  unarchived-Returns project_id =
      bind-Triple _ _ (catch-Returns _ _ (first-Triple t0 _ tt))
        (λ p. weaken-Triple (λ u t h. h.0.0) (guard-Returns _ _))

invite-Returns :
    (x : External) (actor_user_id project_id role_id : ℕ) (email : List ℕ) (t0 : Tables)
    → Returns
        (λ t. t ≡ t0)
        (invite_member x actor_user_id project_id email role_id)
        (λ u t. Invited (normalize_email x email) actor_user_id project_id role_id t0)
unfolding invite_member get_role find_user_by_email ensure_not_archived get_project
invite-Returns x actor_user_id project_id role_id email t0 =
    bind-Triple _ _ (authorize-Returns t0 project_id actor_user_id _) (λ actor.
      with_fact (λ allowed.
        bind-Triple {Q = λ u t. t ≡ t0} _ _ (unarchived-Returns t0 project_id) (λ u.
          bind-Triple _ _ (catch-Returns _ _ (first-Triple t0 (find_role role_id) tt)) (λ role.
            with_fact (λ role_found.
              bind-Triple {Q = λ v t. t ≡ t0} _ _ (assignable-Returns t0 project_id role) (λ v.
                bind-Triple _ _
                  (owner_invites-Returns t0 project_id actor_user_id role actor allowed.0)
                  (λ o. with_fact (λ by_owner.
                    bind-Triple _ _ (catch-Returns _ _ (first-Triple t0 _ tt)) (λ user.
                      with_fact (λ user_found.
                        bind-Triple _ _ (not_a_member-Returns t0 project_id user.id) (λ n.
                          with_fact (λ newcomer.
                            weaken-Triple
                              (λ r t q. record {
                                actor = actor;
                                is_member = allowed.0;
                                may_invite = allowed.1;
                                role = role;
                                role_found = role_found;
                                owner_by_owner = by_owner;
                                user = user;
                                user_found = user_found;
                                newcomer = newcomer;
                              })
                              (before-Returns (λ s h. tt)
                                (always-Returns {F = Unit {0}} _))))))))))))))

-- An invitation that succeeds stands on the tables before it: the actor is a member whose role may
-- invite, the role exists, and if it is the owner's then the actor is an owner; the address is that
-- of a user who is not deleted and who is no member of the project.
pub invite_member-Invited :
    (x : External) (actor_user_id project_id role_id : ℕ) (email : List ℕ) (w : World Tables)
    → (invite_member x actor_user_id project_id email role_id w).0 ≡ ok tt
    → Invited (normalize_email x email) actor_user_id project_id role_id w.db
invite_member-Invited x actor_user_id project_id role_id email w e =
    run-Returns (invite-Returns x actor_user_id project_id role_id email w.db) w refl tt e
