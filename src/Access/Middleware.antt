-- ===== src/Access/Middleware.antt =====
-- src/middleware/permissions.ts: the three guards in front of the landing-page routes.
-- A guard calls `next` or answers; a query may throw, which the `catch` answers with 500. The
-- answer's `message` text and the telemetry are left out.
pub mod Laws
pub mod Pages
use webappv.Common.{
  ℕ, String, Bool, false, ◌&&◌, Option, none, some, List, if◌then◌else◌, ◌==◌, string_equality,
  includes, truthy, Result, ok, ◌>>=◌, catch,
}
use webappv.Access.Roles.{
  UserRole, user_role_equality, PermissionType, permission_equality, is_admin,
}
use webappv.Access.Schema.{Assignment}
use webappv.Access.RoleProfiles.{get_effective_policy}
use webappv.Access.Policy.{
  PolicyAction, PolicyDecision, PolicyQueries, evaluate, legacy_permission_action_to_policy_action,
  Reason,
}

pub data Response : Type 0 where
  next : Response
  reply : (status : ℕ) → (error : String) → Response
  -- the 403 of `requirePermission`, with `required_permission` and `deny_reason`
  denied : Option PermissionType → Reason → Response

-- the fields of `AuthenticatedRequest` that the guards read
pub record AuthRequest : Type 0 where
  pub user_id : Option String
  pub user_role : Option UserRole
  pub organization_id : Option String

-- the columns of `OrgSettings` that the guards read; `pii_export_enabled` is in the decoded
-- data governance policy
pub record OrgSettings : Type 0 where
  pub landing_pages_enabled : Bool
  pub allowed_publishers : List UserRole
  pub pii_export_enabled : Option Bool

abbrev pub check_failed : String → Response
check_failed err = reply 500 "permission_check_failed"

abbrev feature_gate : Option OrgSettings → Response
feature_gate none = next
feature_gate (some settings) =
    if settings.landing_pages_enabled then next else reply 403 "feature_disabled"

unfoldable pub require_landing_pages_enabled :
    (find_settings : String → Result (Option OrgSettings)) → AuthRequest → Response
require_landing_pages_enabled find_settings req = elim (truthy req.organization_id) [
  | none ↦ reply 401 "Authentication required"
  | some org_id ↦
      catch (do settings ← find_settings org_id; ok (feature_gate settings)) check_failed
]

-- `settings?.allowedPublishers?.includes(userRole)`
abbrev pub publisher_allowed : Option OrgSettings → Option UserRole → Bool
publisher_allowed (some settings) (some role) = includes settings.allowed_publishers role
publisher_allowed _ _ = false

-- `decodeDataGovernancePolicy(settings?.dataGovernancePolicy)` is never null
abbrev pub governance_flag : Option OrgSettings → Option (Option Bool)
governance_flag none = some none
governance_flag (some settings) = some settings.pii_export_enabled

unfoldable pub decide : String → Option OrgSettings → Option UserRole → PolicyDecision → Response
decide action settings role decision =
    if decision.allowed
    then next
    else if action == "publish" && publisher_allowed settings role
    then next
    else denied decision.required_permission decision.reason

module _ (q : PolicyQueries) (find_settings : String → Result (Option OrgSettings)) where
  -- from the settings query on
  unfoldable pub permission_checks :
      String → PolicyAction → String → String → Option UserRole → Result Response
  permission_checks action policy_action user_id organization_id user_role = do
    settings ← find_settings organization_id
    decision ← evaluate q (record {
      action = policy_action;
      organization_id = organization_id;
      user_id = user_id;
      user_role = user_role;
      account_id = none;
      pii_export_enabled = governance_flag settings;
    })
    ok (decide action settings user_role decision)

  unfoldable pub permission_for : String → String → String → Option UserRole → Response
  permission_for action user_id organization_id user_role =
      if is_admin user_role then next else elim (legacy_permission_action_to_policy_action action) [
        | none ↦ reply 500 "Unknown permission action"
        | some policy_action ↦
            catch (permission_checks action policy_action user_id organization_id user_role)
              check_failed
      ]

  unfoldable pub require_permission : String → AuthRequest → Response
  require_permission action req = elim (truthy req.user_id) [
    | none ↦ reply 401 "Authentication required"
    | some user_id ↦ elim (truthy req.organization_id) [
      | none ↦ reply 401 "Authentication required"
      | some organization_id ↦ permission_for action user_id organization_id req.user_role
    ]
  ]

-- `landingPage.findFirst`, which gives `createdById`
pub record PageQueries : Type 0 where
  pub find_page_creator : String → String → Result (Option String)
  pub find_assignment : String → Result (Option Assignment)
  pub has_user_permission : String → PermissionType → Result Bool

module _ (q : PageQueries) where
  -- from the effective policy on
  unfoldable pub edit_any_checks : String → String → Option UserRole → Result Response
  edit_any_checks user_id organization_id user_role = do
    policy ← get_effective_policy q.find_assignment organization_id user_id user_role
    (if includes policy.permissions PermissionType.edit_any_landing_page then ok next else do
      edit_any ← q.has_user_permission user_id PermissionType.edit_any_landing_page
      ok (if edit_any then next else reply 403 "permission_denied"))

  unfoldable pub page_checks : String → String → String → Option UserRole → Result Response
  page_checks page_id user_id organization_id user_role = do
    page ← q.find_page_creator page_id organization_id
    elim page [
      | none ↦ ok (reply 404 "Landing page not found")
      | some created_by_id ↦
          if created_by_id == user_id
          then ok next
          else edit_any_checks user_id organization_id user_role
    ]

  unfoldable pub page_access : String → String → String → Option UserRole → Response
  page_access page_id user_id organization_id user_role =
      if is_admin user_role
      then next
      else catch (page_checks page_id user_id organization_id user_role) check_failed

  unfoldable pub require_page_owner_or_permission : String → AuthRequest → Response
  require_page_owner_or_permission page_id req = elim (truthy req.user_id) [
    | none ↦ reply 401 "Authentication required"
    | some user_id ↦ elim (truthy req.organization_id) [
      | none ↦ reply 401 "Authentication required"
      | some organization_id ↦ page_access page_id user_id organization_id req.user_role
    ]
  ]
