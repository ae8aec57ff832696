-- ===== src/Access/RoleProfiles.antt =====
-- src/services/role-profiles.ts: presets, the fallback policy, and a user's effective policy.
-- The text of `description` is kept; the database is the argument `find_assignment`.
use webappv.Common.{
  ℕ, String, Bool, true, false, Option, none, some, List, [], ◌∷◌, if◌then◌else◌, ◌==◌,
  string_equality, Result, ok, ◌>>=◌,
}
use webappv.Access.Roles.{
  UserRole, PermissionType, create_landing_page, publish_landing_page, publish_named_landing_page,
  approve_publish_requests, view_raw_transcripts, edit_any_landing_page, delete_any_landing_page,
  manage_permissions, view_analytics, manage_entity_resolution, manage_ai_settings,
  AccountScopeType, all_accounts, account_list, is_admin, is_viewer,
}
use webappv.Access.Schema.{ProfileLimits, RoleProfile, Assignment}

pub data RolePresetKey : Type 0 where
  sales cs exec billing_admin approval_admin team_approval_admin : RolePresetKey

pub data PolicySource : Type 0 where
  admin_override assigned_profile fallback : PolicySource

pub record EffectiveRolePolicy : Type 0 where
  pub permissions : List PermissionType
  pub can_access_anonymous_stories : Bool
  pub can_generate_anonymous_stories : Bool
  pub can_access_named_stories : Bool
  pub can_generate_named_stories : Bool
  pub default_account_scope_type : AccountScopeType
  pub default_account_ids : List String
  pub limits : ProfileLimits
  pub source : PolicySource

-- no limit but, where given, the one on stories
abbrev pub story_limit : Option ℕ → ProfileLimits
story_limit most = record {
  max_tokens_per_day = none;
  max_tokens_per_month = none;
  max_requests_per_day = none;
  max_requests_per_month = none;
  max_stories_per_month = most;
}

-- `PRESETS`. Of a `RoleProfileInput` the absent `defaultAccountIds` is `[]` and an absent limit
-- `null`, as `ensurePresetRoles` stores them; `id` and `organization_id` are the row's.
unfoldable pub preset : RolePresetKey → String → String → RoleProfile
preset sales id org = record {
  id = id;
  organization_id = org;
  key = "SALES";
  name = "Sales Team";
  description = some "Builds stories and publishes customer-facing outputs.";
  is_preset = true;
  permissions =
      create_landing_page ∷ publish_landing_page ∷ publish_named_landing_page ∷ view_analytics ∷ [];
  can_access_anonymous_stories = true;
  can_generate_anonymous_stories = true;
  can_access_named_stories = true;
  can_generate_named_stories = true;
  default_account_scope_type = all_accounts;
  default_account_ids = [];
  limits = story_limit (some 200);
}
preset cs id org = record {
  id = id;
  organization_id = org;
  key = "CS";
  name = "Customer Success Team";
  description = some "Builds internal/external stories, usually anonymized by default.";
  is_preset = true;
  permissions = create_landing_page ∷ publish_landing_page ∷ view_analytics ∷ [];
  can_access_anonymous_stories = true;
  can_generate_anonymous_stories = true;
  can_access_named_stories = false;
  can_generate_named_stories = false;
  default_account_scope_type = all_accounts;
  default_account_ids = [];
  limits = story_limit (some 120);
}
preset exec id org = record {
  id = id;
  organization_id = org;
  key = "EXEC";
  name = "Executive (View Only)";
  description =
      some
        "View reporting and content that has already been created. No generation/publish actions.";
  is_preset = true;
  permissions = view_analytics ∷ [];
  can_access_anonymous_stories = true;
  can_generate_anonymous_stories = false;
  can_access_named_stories = false;
  can_generate_named_stories = false;
  default_account_scope_type = account_list;
  default_account_ids = [];
  limits = story_limit (some 0);
}
preset billing_admin id org = record {
  id = id;
  organization_id = org;
  key = "BILLING_ADMIN";
  name = "Billing Admin";
  description = some "Manages seats, billing readiness, and all approval workflows.";
  is_preset = true;
  permissions =
      manage_permissions ∷ view_analytics ∷ publish_landing_page ∷ approve_publish_requests ∷ [];
  can_access_anonymous_stories = true;
  can_generate_anonymous_stories = false;
  can_access_named_stories = true;
  can_generate_named_stories = false;
  default_account_scope_type = all_accounts;
  default_account_ids = [];
  limits = story_limit (some 0);
}
preset approval_admin id org = record {
  id = id;
  organization_id = org;
  key = "APPROVAL_ADMIN";
  name = "Approval Admin";
  description = some "Can perform organization-wide review and approval actions.";
  is_preset = true;
  permissions = publish_landing_page ∷ view_analytics ∷ approve_publish_requests ∷ [];
  can_access_anonymous_stories = true;
  can_generate_anonymous_stories = false;
  can_access_named_stories = true;
  can_generate_named_stories = false;
  default_account_scope_type = all_accounts;
  default_account_ids = [];
  limits = story_limit (some 0);
}
preset team_approval_admin id org = record {
  id = id;
  organization_id = org;
  key = "TEAM_APPROVAL_ADMIN";
  name = "Team Approval Admin";
  description = some "Can review approvals for assigned teams configured by billing admins.";
  is_preset = true;
  permissions = publish_landing_page ∷ view_analytics ∷ approve_publish_requests ∷ [];
  can_access_anonymous_stories = true;
  can_generate_anonymous_stories = false;
  can_access_named_stories = true;
  can_generate_named_stories = false;
  default_account_scope_type = all_accounts;
  default_account_ids = [];
  limits = story_limit (some 0);
}

-- `Object.values(PRESETS)`
abbrev pub preset_keys : List RolePresetKey
preset_keys = sales ∷ cs ∷ exec ∷ billing_admin ∷ approval_admin ∷ team_approval_admin ∷ []

abbrev pub admin_policy : EffectiveRolePolicy
admin_policy = record {
  permissions =
      create_landing_page ∷ publish_landing_page ∷ publish_named_landing_page
      ∷ approve_publish_requests ∷ view_raw_transcripts ∷ edit_any_landing_page
      ∷ delete_any_landing_page ∷ manage_permissions ∷ view_analytics ∷ manage_entity_resolution
      ∷ manage_ai_settings ∷ [];
  can_access_anonymous_stories = true;
  can_generate_anonymous_stories = true;
  can_access_named_stories = true;
  can_generate_named_stories = true;
  default_account_scope_type = all_accounts;
  default_account_ids = [];
  limits = story_limit none;
  source = admin_override;
}

abbrev pub viewer_policy : EffectiveRolePolicy
viewer_policy = record {
  permissions = view_analytics ∷ [];
  can_access_anonymous_stories = true;
  can_generate_anonymous_stories = false;
  can_access_named_stories = false;
  can_generate_named_stories = false;
  default_account_scope_type = account_list;
  default_account_ids = [];
  limits = story_limit (some 0);
  source = fallback;
}

abbrev pub member_policy : EffectiveRolePolicy
member_policy = record {
  permissions = [];
  can_access_anonymous_stories = true;
  can_generate_anonymous_stories = true;
  can_access_named_stories = false;
  can_generate_named_stories = false;
  default_account_scope_type = account_list;
  default_account_ids = [];
  limits = story_limit none;
  source = fallback;
}

unfoldable pub fallback_policy : Option UserRole → EffectiveRolePolicy
fallback_policy user_role =
    if is_admin user_role
    then admin_policy
    else if is_viewer user_role
    then viewer_policy
    else member_policy

-- the object that `getEffectivePolicy` builds from an assigned profile
abbrev pub policy_of_profile : RoleProfile → EffectiveRolePolicy
policy_of_profile p = record {
  permissions = p.permissions;
  can_access_anonymous_stories = p.can_access_anonymous_stories;
  can_generate_anonymous_stories = p.can_generate_anonymous_stories;
  can_access_named_stories = p.can_access_named_stories;
  can_generate_named_stories = p.can_generate_named_stories;
  default_account_scope_type = p.default_account_scope_type;
  default_account_ids = p.default_account_ids;
  limits = p.limits;
  source = assigned_profile;
}

abbrev pub policy_of_assignment : Option Assignment → String → Option UserRole → EffectiveRolePolicy
policy_of_assignment none organization_id user_role = fallback_policy user_role
policy_of_assignment (some a) organization_id user_role =
    if a.role_profile.organization_id == organization_id
    then policy_of_profile a.role_profile
    else fallback_policy user_role

unfoldable pub get_effective_policy :
    (find_assignment : String → Result (Option Assignment))
    → String
    → String
    → Option UserRole
    → Result EffectiveRolePolicy
get_effective_policy find_assignment organization_id user_id user_role =
    if is_admin user_role then ok (fallback_policy user_role) else do
      assignment ← find_assignment user_id
      ok (policy_of_assignment assignment organization_id user_role)
