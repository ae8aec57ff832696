-- ===== src/Publishing/Eligibility.antt =====
-- src/services/landing-page-approval.ts: the steps of an approval chain and `canUserApproveStep`.
pub mod Laws
pub mod Steps
use webappv.Common.{
  ℕ, String, Bool, true, false, not, ◌&&◌, Option, none, some, if◌then◌else◌, ◌==◌, string_equality,
  opt_eq, truthy, Result, ok, ◌>>=◌,
}
use webappv.Access.Roles.{UserRole, owner, admin, member, viewer}
use webappv.Access.Schema.{Assignment}

pub data ApproverScope : Type 0 where
  role_profile team user group self : ApproverScope

-- `required_user_role` is text; the scope may be missing in a stored payload.
pub record PublishApprovalStep : Type 0 where
  pub step_order : ℕ
  pub min_approvals : ℕ
  pub required_role_profile_key : Option String
  pub required_user_role : Option String
  pub approver_scope_type : Option ApproverScope
  pub approver_scope_value : Option String
  pub allow_self_approval : Bool

-- the `params` of the functions in the file
pub record Params : Type 0 where
  pub organization_id : Option String
  pub user_id : Option String
  pub user_role : Option UserRole

abbrev pub role_name : Option UserRole → Option String
role_name none = none
role_name (some owner) = some "OWNER"
role_name (some admin) = some "ADMIN"
role_name (some member) = some "MEMBER"
role_name (some viewer) = some "VIEWER"

pub record ApprovalQueries : Type 0 where
  pub find_assignment : String → Result (Option Assignment)
  pub is_group_member : (organization_id group_id user_id : String) → Result Bool
  pub has_team_scope : (organization_id user_id team_key : String) → Result Bool

-- `roleProfileKey`
abbrev pub role_profile_key : Option Assignment → String → Option String
role_profile_key none organization_id = none
role_profile_key (some a) organization_id =
    if a.role_profile.organization_id == organization_id then some a.role_profile.key else none

abbrev pub is_present : Option String → Bool
is_present none = false
is_present (some s) = true

-- `required && value !== required`
abbrev pub lacks : Option String → Option String → Bool
lacks none value = false
lacks (some required) value = not (opt_eq value (some required))

-- `step.approver_scope_type ?? "ROLE_PROFILE"`
abbrev pub scope_or_default : Option ApproverScope → ApproverScope
scope_or_default none = role_profile
scope_or_default (some scope) = scope

module _ (q : ApprovalQueries) (organization_id user_id : String) where
  -- from `scopeType` on; `scope_value` is the truthy part of `approver_scope_value`
  unfoldable pub scope_allows :
      ApproverScope → Option String → Option String → Option String → Result Bool
  scope_allows self scope_value key requested_by = ok (opt_eq requested_by (some user_id))
  scope_allows user scope_value key requested_by = ok (opt_eq scope_value (some user_id))
  scope_allows group none key requested_by = ok false
  scope_allows group (some value) key requested_by = q.is_group_member organization_id value user_id
  scope_allows team none key requested_by = ok false
  scope_allows team (some value) key requested_by =
      if opt_eq key (some "TEAM_APPROVAL_ADMIN")
      then q.has_team_scope organization_id user_id value
      else ok (opt_eq key (some value))
  scope_allows role_profile none key requested_by = ok (is_present (truthy key))
  scope_allows role_profile (some value) key requested_by = ok (opt_eq key (some value))

  -- from `roleProfileKey` on
  unfoldable pub key_allows : PublishApprovalStep → Option String → Option String → Result Bool
  key_allows step requested_by key =
      if opt_eq key (some "BILLING_ADMIN")
      then ok true
      else if opt_eq key (some "APPROVAL_ADMIN")
      then ok true
      else if lacks (truthy step.required_role_profile_key) key
      then ok false
      else if not step.allow_self_approval && opt_eq (truthy requested_by) (some user_id)
      then ok false
      else scope_allows (scope_or_default step.approver_scope_type)
          (truthy step.approver_scope_value) key requested_by

  unfoldable pub step_allows : Option UserRole → PublishApprovalStep → Option String → Result Bool
  step_allows user_role step requested_by =
      if lacks (truthy step.required_user_role) (role_name user_role) then ok false else do
        assignment ← q.find_assignment user_id
        key_allows step requested_by (role_profile_key assignment organization_id)

unfoldable pub can_user_approve_step :
    ApprovalQueries → Params → PublishApprovalStep → Option String → Result Bool
can_user_approve_step q params step requested_by = elim (truthy params.organization_id) [
  | none ↦ ok false
  | some organization_id ↦ elim (truthy params.user_id) [
    | none ↦ ok false
    | some user_id ↦ step_allows q organization_id user_id params.user_role step requested_by
  ]
]
