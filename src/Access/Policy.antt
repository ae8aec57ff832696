-- ===== src/Access/Policy.antt =====
-- src/services/policy-engine.ts: whether a user may perform an action, and the reason given.
-- `emitDenyTelemetry` only logs, and is left out.
pub mod Laws
use webappv.Common.{
  String, Bool, true, false, not, ◌||◌, ◌==◌, string_equality, Option, none, some, List,
  if◌then◌else◌, includes, truthy, Result, ok, ◌>>=◌,
}
use webappv.Access.Roles.{UserRole, PermissionType, permission_equality, is_admin}
use webappv.Access.Schema.{Assignment, Grant}
use webappv.Access.RoleProfiles.{EffectiveRolePolicy, get_effective_policy}
use webappv.Access.Accounts.{can_access_account}

pub data PolicyAction : Type 0 where
  create_landing_page publish_landing_page edit_any_landing_page : PolicyAction
  delete_any_landing_page manage_permissions view_analytics view_queue_health : PolicyAction
  manage_integrations view_audit_logs export_pii view_named_story view_anonymous_story :
      PolicyAction
  generate_named_story generate_anonymous_story : PolicyAction

pub data Reason : Type 0 where
  admin_bypass role_profile_allow user_permission_allow account_scope_denied : Reason
  story_sensitivity_denied org_policy_denied permission_denied : Reason

-- `storyIsAnonymous` is read by the telemetry only. Of the governance policy `pii_export_enabled`
-- is read; `none` outside is no policy, `none` inside an unset flag.
pub record PolicyEvaluationInput : Type 0 where
  pub action : PolicyAction
  pub organization_id : String
  pub user_id : String
  pub user_role : Option UserRole
  pub account_id : Option String
  pub pii_export_enabled : Option (Option Bool)

pub record PolicyDecision : Type 0 where
  pub allowed : Bool
  pub reason : Reason
  pub required_permission : Option PermissionType

-- `ACTION_PERMISSION_MATRIX`
unfoldable pub action_permission : PolicyAction → Option PermissionType
action_permission create_landing_page = some PermissionType.create_landing_page
action_permission publish_landing_page = some PermissionType.publish_landing_page
action_permission edit_any_landing_page = some PermissionType.edit_any_landing_page
action_permission delete_any_landing_page = some PermissionType.delete_any_landing_page
action_permission manage_permissions = some PermissionType.manage_permissions
action_permission view_analytics = some PermissionType.view_analytics
action_permission view_queue_health = some PermissionType.manage_permissions
action_permission manage_integrations = some PermissionType.manage_permissions
action_permission view_audit_logs = some PermissionType.manage_permissions
action_permission _ = none

-- `orgDataGovernancePolicy?.pii_export_enabled ?? true`
abbrev pub pii_enabled : Option (Option Bool) → Bool
pii_enabled (some (some enabled)) = enabled
pii_enabled _ = true

-- the first `if`: an export of personal data that the organization has switched off
unfoldable pub org_policy_denies : PolicyAction → Option (Option Bool) → Bool
org_policy_denies export_pii policy = not (pii_enabled policy)
org_policy_denies _ policy = false

-- the two `if`s on story sensitivity
unfoldable pub sensitivity_denies : PolicyAction → EffectiveRolePolicy → Bool
sensitivity_denies view_named_story p =
    not p.can_access_named_stories || not p.can_generate_named_stories
sensitivity_denies generate_named_story p =
    not p.can_access_named_stories || not p.can_generate_named_stories
sensitivity_denies view_anonymous_story p = not p.can_access_anonymous_stories
sensitivity_denies generate_anonymous_story p = not p.can_generate_anonymous_stories
sensitivity_denies _ p = false

abbrev pub allow : Reason → Option PermissionType → PolicyDecision
allow reason required = record { allowed = true; reason = reason; required_permission = required }

abbrev pub deny : Reason → PolicyDecision
deny reason = record { allowed = false; reason = reason; required_permission = none }

-- the three queries, each of which may throw
pub record PolicyQueries : Type 0 where
  pub find_assignment : String → Result (Option Assignment)
  pub find_grants : String → String → Result (List Grant)
  pub has_user_permission : String → PermissionType → Result Bool

module _ (q : PolicyQueries) (input : PolicyEvaluationInput) where
  -- from `requiredPermission` on
  unfoldable pub evaluate_permission :
      Option PermissionType → EffectiveRolePolicy → Result PolicyDecision
  evaluate_permission none role_policy = ok (allow role_profile_allow none)
  evaluate_permission (some required) role_policy =
      if includes role_policy.permissions required
      then ok (allow role_profile_allow (some required))
      else do
        granted ← q.has_user_permission input.user_id required
        ok (
            if granted
            then allow user_permission_allow (some required)
            else record (deny permission_denied) { required_permission = some required })

  -- `if (input.accountId)` and what follows
  unfoldable pub evaluate_scope : Option String → EffectiveRolePolicy → Result PolicyDecision
  evaluate_scope none role_policy = evaluate_permission (action_permission input.action) role_policy
  evaluate_scope (some account_id) role_policy = do
    account_allowed ←
        can_access_account q.find_grants input.user_id input.organization_id account_id
          input.user_role
    (if account_allowed
        then evaluate_permission (action_permission input.action) role_policy
        else ok (deny account_scope_denied))

  -- what follows the query of `rolePolicy`
  unfoldable pub evaluate_gates : EffectiveRolePolicy → Result PolicyDecision
  evaluate_gates role_policy =
      if org_policy_denies input.action input.pii_export_enabled
      then ok (deny org_policy_denied)
      else if sensitivity_denies input.action role_policy
      then ok (deny story_sensitivity_denied)
      else evaluate_scope (truthy input.account_id) role_policy

  unfoldable pub evaluate : Result PolicyDecision
  evaluate = if is_admin input.user_role then ok (allow admin_bypass none) else do
    role_policy ←
        get_effective_policy q.find_assignment input.organization_id input.user_id input.user_role
    evaluate_gates role_policy

-- `legacyPermissionActionToPolicyAction`, over the names that its map lists. The names of members that
-- every object inherits, such as "constructor", are left out: no caller passes one.
unfoldable pub legacy_permission_action_to_policy_action : String → Option PolicyAction
legacy_permission_action_to_policy_action action =
    if action == "create"
    then some create_landing_page
    else if action == "publish"
    then some publish_landing_page
    else if action == "edit_any"
    then some edit_any_landing_page
    else if action == "delete_any"
    then some delete_any_landing_page
    else if action == "manage_permissions"
    then some manage_permissions
    else if action == "view_analytics"
    then some view_analytics
    else none
