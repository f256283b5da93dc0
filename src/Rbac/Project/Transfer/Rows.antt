-- ===== src/Rbac/Project/Transfer/Rows.antt =====
-- The rows of a project's members under the two updates of `TransferOwnership` in
-- internal/domain/rbac/repository/repository.go.
use firmflow.Base.{
  Option-cases, ℕ, Bool, true, false, if◌then◌else◌, ◌≡◌, ◌≤◌, refl, sym, ap, subst, ◌∙◌, List, [],
  ◌∷◌, Option, none, some, find?, find?-sound, count, ◌==◌, Bool-cases, inl, inr, arith,
}
use firmflow.Model.{ProjectMembership, update_where}
use firmflow.Rbac.Repository.{of_member}
use firmflow.Rbac.Project.LastOwner.{some_injective}

-- The role of a user in a project, as a lookup of the membership gives it.
abbrev pub role_in : Option ProjectMembership → Option ℕ
role_in none = none
role_in (some m) = some m.role_id

abbrev pub role_of : ℕ → ℕ → List ProjectMembership → Option ℕ
role_of project_id user_id ms = role_in (find? (of_member project_id user_id) ms)

-- No two memberships have one id.
abbrev pub UniqueIds : List ProjectMembership → Type 0
UniqueIds ms = (id : ℕ) → count (λ m. m.id == id) ms ≤ 1

abbrev pub with_id : ℕ → ProjectMembership → Bool
with_id id m = m.id == id

abbrev pub given : ℕ → ℕ → ProjectMembership → ProjectMembership
given role_id at m = record m { role_id = role_id; updated_at = at }

-- A row with this id is the one found.
only_found :
    (p r : ProjectMembership → Bool) (xs : List ProjectMembership) (a : ProjectMembership)
    → find? p xs ≡ some a
    → r a ≡ true
    → 1 ≤ count r xs
only_found p r [] a h k = absurd (cc h)
only_found p r (x ∷ xs) a h k = elim (Bool-cases (p x)) [
  | inl e ↦
      let same : x ≡ a = ground arith in
      let hit : r x ≡ true = ap r same ∙ k in rw hit (omega arith)
  | inr e ↦ ground (arith, only_found p r xs a (rw e at h) k)
]

found_same :
    (p q r : ProjectMembership → Bool) (xs : List ProjectMembership) (a b : ProjectMembership)
    → find? p xs ≡ some a
    → find? q xs ≡ some b
    → r a ≡ true
    → r b ≡ true
    → count r xs ≤ 1
    → a ≡ b
found_same p q r [] a b h k l m one = absurd (cc h)
found_same p q r (x ∷ xs) a b h k l m one = elim (Bool-cases (p x)) [
  | inl e ↦ elim (Bool-cases (q x)) [
    | inl f ↦ some_injective (sym (rw e at h) ∙ (rw f at k))
    | inr f ↦
        let same : x ≡ a = some_injective (rw e at h) in
        let hit : r x ≡ true = ap r same ∙ l in
        let other = only_found q r xs b (rw f at k) m in absurd (ground (arith, hit, other, one))
  ]
  | inr e ↦ elim (Bool-cases (q x)) [
    | inl f ↦
        let same : x ≡ b = some_injective (rw f at k) in
        let hit : r x ≡ true = ap r same ∙ m in
        let other = only_found p r xs a (rw e at h) l in absurd (ground (arith, hit, other, one))
    | inr f ↦
        let fewer : count r xs ≤ 1 = ground arith in
        found_same p q r xs a b (rw e at h) (rw f at k) l m fewer
  ]
]

-- What an update of the role does to a lookup by project and user.
abbrev changed :
    (ProjectMembership → Bool) → ℕ → ℕ → Option ProjectMembership → Option ProjectMembership
changed r role_id at none = none
changed r role_id at (some m) = some (if r m then given role_id at m else m)

find-update :
    (q u id role_id at : ℕ) (xs : List ProjectMembership)
    → find? (of_member q u) (update_where (with_id id) (given role_id at) xs)
      ≡ changed (with_id id) role_id at (find? (of_member q u) xs)
unfolding update_where
find-update q u id role_id at [] = refl
find-update q u id role_id at (x ∷ xs) = elim (Bool-cases (with_id id x)) [
  | inl e ↦ elim (Bool-cases (of_member q u x)) [
    | inl f ↦ rw (e, f, e) refl
    | inr f ↦ rw (e, f) (find-update q u id role_id at xs)
  ]
  | inr e ↦ elim (Bool-cases (of_member q u x)) [
    | inl f ↦ rw (e, f, e) refl
    | inr f ↦ rw (e, f) (find-update q u id role_id at xs)
  ]
]

-- The two users have changed roles, and no other membership of the project is found changed.
pub record Swapped (q a b owner_id admin_id : ℕ) (xs ys : List ProjectMembership) : Type 0 where
  new_owner : role_of q b ys ≡ some owner_id
  old_owner : role_of q a ys ≡ some admin_id
  others :
      (u : ℕ)
      → (u == a) ≡ false
      → (u == b) ≡ false
      → find? (of_member q u) ys ≡ find? (of_member q u) xs

module _ (q : ℕ) (xs : List ProjectMembership) (one : UniqueIds xs) where
  -- The rows of two users have two ids.
  apart :
      (u v : ℕ) (m n : ProjectMembership)
      → find? (of_member q u) xs ≡ some m
      → find? (of_member q v) xs ≡ some n
      → (u == v) ≡ false
      → with_id n.id m ≡ false
  apart u v m n f g differ = elim (Bool-cases (with_id n.id m)) [
    | inl e ↦
        let itself : with_id n.id n ≡ true = ground arith in
        let same =
          found_same (of_member q u) (of_member q v) (with_id n.id) xs m n f g e itself
            (one n.id) in
        let of_u = find?-sound (of_member q u) xs m f in
        let of_v : of_member q v m ≡ true =
          subst (λ k. of_member q v k ≡ true) (sym same) (find?-sound (of_member q v) xs n g) in
        absurd (ground (arith, of_u, of_v, differ))
    | inr e ↦ e
  ]

  module _ (a b : ℕ) (from_row to_row : ProjectMembership)
      (from_found : find? (of_member q a) xs ≡ some from_row)
      (to_found : find? (of_member q b) xs ≡ some to_row) (differ : (a == b) ≡ false)
      (admin_id owner_id at : ℕ) where
    abbrev pub moved : List ProjectMembership
    moved =
        update_where (with_id to_row.id) (given owner_id at)
          (update_where (with_id from_row.id) (given admin_id at) xs)

    moved_found :
        (u : ℕ)
        → find? (of_member q u) moved
          ≡ changed
              (with_id to_row.id)
              owner_id
              at
              (changed (with_id from_row.id) admin_id at (find? (of_member q u) xs))
    moved_found u =
        find-update q u to_row.id owner_id at
          (update_where (with_id from_row.id) (given admin_id at) xs)
        ∙ ap (changed (with_id to_row.id) owner_id at) (find-update q u from_row.id admin_id at xs)

    swapped : (b == a) ≡ false
    swapped = ground arith

    moved_from : role_of q a moved ≡ some admin_id
    moved_from =
        let itself : with_id from_row.id from_row ≡ true = ground arith in
        let other = apart a b from_row to_row from_found to_found differ in
        ap role_in (moved_found a) ∙ rw (from_found, itself, other) refl

    moved_to : role_of q b moved ≡ some owner_id
    moved_to =
        let itself : with_id to_row.id to_row ≡ true = ground arith in
        let other = apart b a to_row from_row to_found from_found swapped in
        ap role_in (moved_found b) ∙ rw (to_found, other, itself) refl

    moved_other :
        (u : ℕ)
        → (u == a) ≡ false
        → (u == b) ≡ false
        → find? (of_member q u) moved ≡ find? (of_member q u) xs
    moved_other u k l = elim (Option-cases (find? (of_member q u) xs)) [
      | inl e ↦ moved_found u ∙ rw e refl
      | inr (m, e) ↦
          let not_from = apart u a m from_row e from_found k in
          let not_to = apart u b m to_row e to_found l in
          moved_found u ∙ rw (e, not_from, not_to) refl
    ]

    pub swap : Swapped q a b owner_id admin_id xs moved
    swap = record { new_owner = moved_to; old_owner = moved_from; others = moved_other }
