-- ===== src/Access/Roles.antt =====
-- The enumerations of prisma/schema.prisma that access control tests.
use mathlib.Core.Bool.{Bool, true, false}
use mathlib.Core.Option.{Option, none, some}
use webappv.Common.{Eq, Eq_of_Discrete}

pub data UserRole : Type 0 where
  owner admin member viewer : UserRole

pub data PermissionType : Type 0 where
  create_landing_page publish_landing_page publish_named_landing_page : PermissionType
  approve_publish_requests view_raw_transcripts edit_any_landing_page : PermissionType
  delete_any_landing_page manage_permissions view_analytics : PermissionType
  manage_entity_resolution manage_ai_settings : PermissionType

pub data AccountScopeType : Type 0 where
  all_accounts single_account account_list crm_report : AccountScopeType

unfoldable pub UserRole-discrete : Discrete UserRole
UserRole-discrete = hlevel

unfoldable pub PermissionType-discrete : Discrete PermissionType
PermissionType-discrete = hlevel

instance abbrev pub user_role_equality : Eq UserRole
user_role_equality = Eq_of_Discrete UserRole-discrete

instance abbrev pub permission_equality : Eq PermissionType
permission_equality = Eq_of_Discrete PermissionType-discrete

-- `userRole === "OWNER" || userRole === "ADMIN"`, false where no role is known.
abbrev pub is_admin : Option UserRole → Bool
is_admin none = false
is_admin (some owner) = true
is_admin (some admin) = true
is_admin (some _) = false

abbrev pub is_viewer : Option UserRole → Bool
is_viewer (some viewer) = true
is_viewer _ = false
