-- ===== src/Model/RbacRows.antt =====
-- internal/domain/rbac/model/models.go, project.go and role_slug.go.
use firmflow.Base.{ℕ, String, Bool, false, List, [], Option, none}

pub record Permission : Type 0 where
  pub id : ℕ
  pub key : String
  pub description : String

-- The join table `role_permissions` is kept with the role.
pub record Role : Type 0 where
  pub id : ℕ
  pub project_id : Option ℕ
  pub slug : String
  pub name : List ℕ
  pub name_normalized : List ℕ
  pub is_predefined : Bool
  pub description : List ℕ
  pub permissions : List Permission
  pub created_at : ℕ
  pub updated_at : ℕ
  pub deleted_at : Option ℕ

pub record ProjectMembership : Type 0 where
  pub id : ℕ
  pub project_id : ℕ
  pub user_id : ℕ
  pub role_id : ℕ
  pub created_at : ℕ
  pub updated_at : ℕ

pub record Project : Type 0 where
  pub id : ℕ
  pub name : List ℕ
  pub description : List ℕ
  pub archived_at : Option ℕ
  pub created_at : ℕ
  pub updated_at : ℕ
  pub deleted_at : Option ℕ

abbrev pub slug_owner : String
slug_owner = "owner"

abbrev pub slug_admin : String
slug_admin = "admin"

abbrev pub slug_developer : String
slug_developer = "developer"

abbrev pub slug_viewer : String
slug_viewer = "viewer"

-- `Role{}`, which a preload leaves in place when the role's row is gone.
abbrev pub zero_role : Role
zero_role = record {
  id = 0;
  project_id = none;
  slug = "";
  name = [];
  name_normalized = [];
  is_predefined = false;
  description = [];
  permissions = [];
  created_at = 0;
  updated_at = 0;
  deleted_at = none;
}
