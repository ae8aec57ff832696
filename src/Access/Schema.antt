-- ===== src/Access/Schema.antt =====
-- The rows of prisma/schema.prisma that access control reads and writes, with the columns it uses.
use webappv.Common.{ℕ, String, Bool, Option, List}
use webappv.Access.Roles.{PermissionType, AccountScopeType}

-- The five limits that a profile carries, `null` as `none`.
pub record ProfileLimits : Type 0 where
  pub max_tokens_per_day : Option ℕ
  pub max_tokens_per_month : Option ℕ
  pub max_requests_per_day : Option ℕ
  pub max_requests_per_month : Option ℕ
  pub max_stories_per_month : Option ℕ

-- model RoleProfile
pub record RoleProfile : Type 0 where
  pub id : String
  pub organization_id : String
  pub key : String
  pub name : String
  pub description : Option String
  pub is_preset : Bool
  pub permissions : List PermissionType
  pub can_access_anonymous_stories : Bool
  pub can_generate_anonymous_stories : Bool
  pub can_access_named_stories : Bool
  pub can_generate_named_stories : Bool
  pub default_account_scope_type : AccountScopeType
  pub default_account_ids : List String
  pub limits : ProfileLimits

-- model UserRoleAssignment, read with `include: { roleProfile: true }`
pub record Assignment : Type 0 where
  pub user_id : String
  pub role_profile : RoleProfile
  pub assigned_by_id : Option String

-- model UserAccountAccess: the columns given to `create`, the others at their defaults
pub record GrantData : Type 0 where
  pub user_id : String
  pub organization_id : String
  pub scope_type : AccountScopeType
  pub account_id : Option String
  pub crm_report_id : Option String
  pub crm_provider : Option String
  pub crm_report_name : Option String
  pub cached_account_ids : List String
  pub granted_by_id : Option String

-- the stored row
pub record Grant : Type 0 where
  pub id : String
  pub last_synced_at : Option ℕ
  pub row : GrantData
  pub open row use *
