-- ===== src/Pages/Route.antt =====
-- The `/:pageId/publish` route of src/api/landing-page/publish-routes.ts and
-- src/services/publish-approval-policy.ts. The body has passed its schema; the audit log, the
-- notifications and the jobs that follow are left out. `add_days` is `setDate` on `new Date()`.
use webappv.Common.{
  ℕ, String, Bool, true, false, not, ◌&&◌, Option, none, some, List, [], ◌∷◌, ◌++◌, if◌then◌else◌,
  ltb, truthy, any, ◌==◌, string_equality, nat_equality, Result, ok, throw,
}
use webappv.Access.Roles.{UserRole}
use webappv.Access.RoleProfiles.{EffectiveRolePolicy, get_effective_policy}
use webappv.Access.Policy.{PolicyQueries}
use webappv.Access.Middleware.{
  Response, next, AuthRequest, OrgSettings, require_landing_pages_enabled, require_permission,
}
use webappv.Publishing.NamedStories.{ArtifactPublishGovernance, get_artifact_publish_governance}
use webappv.Pages.{LandingPage, Store, find_page}
use webappv.Pages.Editor.{Texts, PublishOptions, publish}

pub data ApprovalPolicy : Type 0 where
  all_required anon_no_approval named_no_approval all_no_approval : ApprovalPolicy

pub record ApprovalSettings : Type 0 where
  pub approval_policy : Option ApprovalPolicy
  pub require_approval_to_publish : Option Bool

-- `resolveApprovalPolicyFromSettings`; `null` and `false` both ask for no approval
unfoldable pub resolve_approval_policy : ApprovalSettings → ApprovalPolicy
resolve_approval_policy settings = elim settings.approval_policy [
  | some policy ↦ policy
  | none ↦ elim settings.require_approval_to_publish [
    | none ↦ all_no_approval
    | some required ↦ if required then all_required else all_no_approval
  ]
]

unfoldable pub requires_publish_approval : ApprovalPolicy → (is_named_story : Bool) → Bool
requires_publish_approval all_required named = true
requires_publish_approval all_no_approval named = false
requires_publish_approval anon_no_approval named = named
requires_publish_approval named_no_approval named = not named

-- the queries of the route and of the guard in front of it
pub record Queries : Type 0 where
  pub guard : PolicyQueries
  pub guard_settings : (organization_id : String) → Result (Option OrgSettings)
  pub find_policy : (organization_id : String) → Result (Option ArtifactPublishGovernance)
  pub get_settings : (organization_id : String) → Result (Option ApprovalSettings)
  pub add_days : (now days : ℕ) → ℕ

pub record PublishRequest : Type 0 where
  pub organization_id : Option String
  pub user_id : Option String
  pub user_role : Option UserRole
  pub page_id : String
  pub options : PublishOptions

-- model ApprovalRequest, as long as it is pending
pub record PendingApproval : Type 0 where
  pub id : String
  pub organization_id : String
  pub target_id : String
  pub requested_by : String

pub data Reply : Type 0 where
  unauthorized forbidden max_expiration already_pending queued : Reply
  refused : Response → Reply
  failed : (message : String) → Reply
  published : (slug : String) → Reply

pub record Desk : Type 0 where
  pub store : Store
  pub pending : List PendingApproval

-- `page.includeCompanyName ? canGenerateNamedStories : canGenerateAnonymousStories`
abbrev pub can_generate : EffectiveRolePolicy → LandingPage → Bool
can_generate policy p =
    if p.include_company_name
    then policy.can_generate_named_stories
    else policy.can_generate_anonymous_stories

abbrev pub expires_too_late :
    (add_days : ℕ → ℕ → ℕ) → (now : ℕ) → ArtifactPublishGovernance → PublishOptions → Bool
expires_too_late add_days now governance options = elim options.expires_at [
  | none ↦ false
  | some expires_at ↦ elim governance.max_expiration_days [
    | none ↦ false
    | some days ↦ not (days == 0) && ltb (add_days now days) expires_at
  ]
]

-- a call that throws ends in the `catch` of the route
abbrev pub or_fail : {A : Type 0} → Desk → Result A → (A → Desk × Reply) → Desk × Reply
or_fail desk (throw message) rest = (desk, failed message)
or_fail desk (ok a) rest = rest a

-- `getForEditing`
abbrev pub or_missing : Desk → Option LandingPage → (LandingPage → Desk × Reply) → Desk × Reply
or_missing desk none rest = (desk, failed "No LandingPage found")
or_missing desk (some p) rest = rest p

-- the fields of the request that the guard reads
abbrev pub auth : PublishRequest → AuthRequest
auth request = record {
  user_id = request.user_id;
  user_role = request.user_role;
  organization_id = request.organization_id;
}

-- a guard calls `next` or answers
abbrev pub behind : Response → Desk → Desk × Reply → Desk × Reply
behind next desk rest = rest
behind response desk rest = (desk, refused response)

abbrev pub or_unauthorized : Desk → Option String → (String → Desk × Reply) → Desk × Reply
or_unauthorized desk none rest = (desk, unauthorized)
or_unauthorized desk (some id) rest = rest id

-- a check that ends the request
abbrev pub unless : Bool → Desk → Reply → Desk × Reply → Desk × Reply
unless true desk reply rest = (desk, reply)
unless false desk reply rest = rest

abbrev pub is_pending : (organization_id page_id : String) → List PendingApproval → Bool
is_pending organization_id page_id pending =
    any (λ r. r.organization_id == organization_id && r.target_id == page_id) pending

abbrev pub policy_of : Option ApprovalSettings → ApprovalPolicy
policy_of none =
    resolve_approval_policy (record { approval_policy = none; require_approval_to_publish = none })
policy_of (some settings) = resolve_approval_policy settings

module _ (texts : Texts) (queries : Queries) (version_id request_id : String) (now : ℕ) where
  -- the request for approval
  unfoldable pub ask_approval :
      (organization_id user_id : String) → LandingPage → Desk → Desk × Reply
  ask_approval organization_id user_id p desk =
      unless (is_pending organization_id p.id desk.pending) desk already_pending (
        record desk {
          pending =
              desk.pending
              ++ record {
                id = request_id;
                organization_id = organization_id;
                target_id = p.id;
                requested_by = user_id;
              }
                ∷ [];
        },
        queued,
      )

  -- the publication without approval
  unfoldable pub publish_directly : PublishRequest → Desk → Desk × Reply
  publish_directly request desk =
      let (store, result) =
        publish texts version_id now request.page_id request.options desk.store in
      (
        record desk { store = store },
        elim result [ ok slug ↦ published slug | throw message ↦ failed message ],
      )

  -- what follows on a signed-in user
  unfoldable pub publish_as :
      (organization_id user_id : String) → PublishRequest → Desk → Desk × Reply
  publish_as organization_id user_id request desk =
      or_missing desk (find_page request.page_id desk.store) (λ p.
        or_fail desk
          (get_effective_policy queries.guard.find_assignment organization_id user_id
            request.user_role)
          (λ policy. unless (not (can_generate policy p)) desk forbidden (
            or_fail desk (get_artifact_publish_governance queries.find_policy organization_id)
              (λ governance.
                unless (expires_too_late queries.add_days now governance request.options) desk
                  max_expiration
                  (or_fail desk (queries.get_settings organization_id) (λ settings.
                    if requires_publish_approval (policy_of settings) p.include_company_name
                    then ask_approval organization_id user_id p desk
                    else publish_directly request desk))))))

  -- the route, behind `requireLandingPagesEnabled`, which is in front of every route of
  -- src/api/landing-page/routes.ts, and behind `requirePermission(prisma, "publish")`
  unfoldable pub publish_route : PublishRequest → Desk → Desk × Reply
  publish_route request desk =
      behind (require_landing_pages_enabled queries.guard_settings (auth request)) desk (
        behind (require_permission queries.guard queries.guard_settings "publish" (auth request))
          desk
          (or_unauthorized desk (truthy request.organization_id) (λ organization_id.
            or_unauthorized desk (truthy request.user_id)
              (λ user_id. publish_as organization_id user_id request desk))))
