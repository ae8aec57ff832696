-- ===== src/Publishing/NamedStories.antt =====
-- src/services/landing-page-approval.ts: `isAdminRole`, `canAccessNamedStories`,
-- `canGenerateNamedStories` and the governance policy; src/api/landing-page/publish-routes.ts:
-- `canReviewPublishApprovals`. The database's answers are arguments.
pub mod Laws
use webappv.Common.{
  ℕ, String, Bool, true, false, ◌||◌, Option, none, some, List, [], if◌then◌else◌, includes, truthy,
  Result, ok, ◌>>=◌,
}
use webappv.Access.Roles.{
  PermissionType, permission_equality, publish_named_landing_page, approve_publish_requests,
  is_admin,
}
use webappv.Access.Schema.{Assignment}
use webappv.Access.RoleProfiles.{EffectiveRolePolicy, get_effective_policy}
use webappv.Publishing.Eligibility.{Params, PublishApprovalStep}

module _ (find_assignment : String → Result (Option Assignment))
    (has_user_permission : String → PermissionType → Result Bool) where
  -- the policy's own switch or a permission, from the role or given to the user
  unfoldable pub permitted_by : (EffectiveRolePolicy → Bool) → PermissionType → Params → Result Bool
  permitted_by switch permission params =
      if is_admin params.user_role then ok true else elim (truthy params.organization_id) [
        | none ↦ ok false
        | some organization_id ↦ elim (truthy params.user_id) [
          | none ↦ ok false
          | some user_id ↦ do
            policy ← get_effective_policy find_assignment organization_id user_id params.user_role
            (if switch policy || includes policy.permissions permission
                then ok true
                else has_user_permission user_id permission)
        ]
      ]

  unfoldable pub can_access_named_stories : Params → Result Bool
  can_access_named_stories =
      permitted_by (λ policy. policy.can_access_named_stories) publish_named_landing_page

  unfoldable pub can_generate_named_stories : Params → Result Bool
  can_generate_named_stories =
      permitted_by (λ policy. policy.can_generate_named_stories) publish_named_landing_page

  -- the owner and admin test stands behind that of the ids here
  unfoldable pub can_review_publish_approvals : Params → Result Bool
  can_review_publish_approvals params = elim (truthy params.organization_id) [
    | none ↦ ok false
    | some organization_id ↦ elim (truthy params.user_id) [
      | none ↦ ok false
      | some user_id ↦ permitted_by (λ policy. false) approve_publish_requests params
    ]
  ]

pub record ArtifactPublishGovernance : Type 0 where
  pub approval_chain_enabled : Bool
  pub max_expiration_days : Option ℕ
  pub require_provenance : Bool
  pub steps : List PublishApprovalStep

-- The stored policy, its enabled steps in the order of `stepOrder` as the query asks for them.
unfoldable pub get_artifact_publish_governance :
    (find_policy : String → Result (Option ArtifactPublishGovernance))
    → String
    → Result ArtifactPublishGovernance
get_artifact_publish_governance find_policy organization_id = do
  policy ← find_policy organization_id
  elim policy [
    | none ↦ ok (record {
      approval_chain_enabled = false;
      max_expiration_days = none;
      require_provenance = true;
      steps = [];
    })
    | some stored ↦ ok stored
  ]
