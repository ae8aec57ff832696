-- ===== src/Pages/Publishers.antt =====
-- Who may publish a page directly by the route of src/api/landing-page/publish-routes.ts, and when
-- src/services/publish-approval-policy.ts asks for no approval.
use webappv.Common.{
  ℕ, String, ◌≤◌, ◌≡◌, ◌≢◌, refl, ◌↔◌, ◌⊎◌, Bool, true, false, not, Option, none, some, ok, arith,
  nat_equality, Option-cases, Bool-cases, inl, inr,
}
use webappv.Access.Roles.{is_admin}
use webappv.Access.RoleProfiles.{EffectiveRolePolicy, get_effective_policy}
use webappv.Access.Middleware.Laws.{IsSignedIn, IsSwitchedOn, Passes}
use webappv.Publishing.NamedStories.{ArtifactPublishGovernance, get_artifact_publish_governance}
use webappv.Pages.{LandingPage, find_page}
use webappv.Pages.Editor.{Texts, PublishOptions, publish}
use webappv.Pages.Route.{
  ApprovalPolicy, all_required, anon_no_approval, named_no_approval, all_no_approval,
  ApprovalSettings, Queries, PublishRequest, Desk, auth, can_generate, expires_too_late, policy_of,
  resolve_approval_policy, requires_publish_approval,
}

-- the organization asks for no approval of a page with, or without, the names
pub data NeedsNone : Option ApprovalSettings → (named : Bool) → Type 0 where
  no_settings : {named : Bool} → NeedsNone none named
  never_asked :
      {s : ApprovalSettings} {named : Bool}
      → s.approval_policy ≡ some all_no_approval
      → NeedsNone (some s) named
  anonymous_free :
      {s : ApprovalSettings} → s.approval_policy ≡ some anon_no_approval → NeedsNone (some s) false
  named_free :
      {s : ApprovalSettings} → s.approval_policy ≡ some named_no_approval → NeedsNone (some s) true
  not_required :
      {s : ApprovalSettings} {named : Bool}
      → s.approval_policy ≡ none
      → s.require_approval_to_publish ≢ some true
      → NeedsNone (some s) named

pub NeedsNone-complete :
    {settings : Option ApprovalSettings} {named : Bool}
    → NeedsNone settings named
    → requires_publish_approval (policy_of settings) named ≡ false
unfolding requires_publish_approval resolve_approval_policy
NeedsNone-complete no_settings = refl
NeedsNone-complete (never_asked e) = rw e refl
NeedsNone-complete (anonymous_free e) = rw e refl
NeedsNone-complete (named_free e) = rw e refl
NeedsNone-complete (not_required {s} e n) = ground arith

by_policy_sound :
    (s : ApprovalSettings) (policy : ApprovalPolicy) (named : Bool)
    → s.approval_policy ≡ some policy
    → requires_publish_approval policy named ≡ false
    → NeedsNone (some s) named
unfolding requires_publish_approval
by_policy_sound s all_required named e h = cc
by_policy_sound s all_no_approval named e h = never_asked e
by_policy_sound s anon_no_approval false e h = anonymous_free e
by_policy_sound s anon_no_approval true e h = cc
by_policy_sound s named_no_approval true e h = named_free e
by_policy_sound s named_no_approval false e h = cc

pub NeedsNone-sound :
    (settings : Option ApprovalSettings) (named : Bool)
    → requires_publish_approval (policy_of settings) named ≡ false
    → NeedsNone settings named
unfolding resolve_approval_policy requires_publish_approval
NeedsNone-sound none named h = no_settings
NeedsNone-sound (some s) named h = elim (Option-cases s.approval_policy) [
  | inr (policy, e) ↦ by_policy_sound s policy named e (rw e at h)
  | inl e ↦ not_required e (λ required. ground arith)
]

-- the role may generate pages of this kind
abbrev pub MayGenerate : EffectiveRolePolicy → LandingPage → Type 0
MayGenerate policy p =
    (p.include_company_name ≡ true → policy.can_generate_named_stories ≡ true)
    × (p.include_company_name ≡ false → policy.can_generate_anonymous_stories ≡ true)

-- the expiry asked for is within the days that the governance allows, where it sets any
abbrev pub IsInTime : (ℕ → ℕ → ℕ) → ℕ → ArtifactPublishGovernance → PublishOptions → Type 0
IsInTime add_days now governance options =
    (expires_at days : ℕ)
    → options.expires_at ≡ some expires_at
    → governance.max_expiration_days ≡ some days
    → days ≢ 0
    → expires_at ≤ add_days now days

pub can_generate_iff :
    (policy : EffectiveRolePolicy) (p : LandingPage)
    → (not (can_generate policy p) ≡ false) ↔ MayGenerate policy p
can_generate_iff policy p = (
  λ h. (λ e. ground arith, λ e. ground arith),
  λ (named, anonymous). elim (Bool-cases p.include_company_name) [
    | inl e ↦ ground (arith, named e)
    | inr e ↦ ground (arith, anonymous e)
  ],
)

pub IsInTime-iff :
    (add_days : ℕ → ℕ → ℕ) (now : ℕ) (governance : ArtifactPublishGovernance)
    (options : PublishOptions)
    → (expires_too_late add_days now governance options ≡ false)
      ↔ IsInTime add_days now governance options
IsInTime-iff add_days now governance options = (
  λ h t d e f n. ground (arith, nat_equality.beq_iff d 0),
  λ h. elim (Option-cases options.expires_at) [
    | inl e ↦ ground arith
    | inr (t, e) ↦ elim (Option-cases governance.max_expiration_days) [
      | inl f ↦ ground arith
      | inr (d, f) ↦ ground (arith, h t d e f, nat_equality.beq_iff d 0)
    ]
  ],
)

-- The conditions of the route, on the organization of the user, the user and the page.
pub record MayPublish (texts : Texts) (queries : Queries) (version_id : String) (now : ℕ)
    (request : PublishRequest) (desk : Desk) (slug : String) : Type 0 where
  pub signed_in : IsSignedIn (auth request)
  pub switched_on : IsSwitchedOn queries.guard_settings (auth request)
  pub permitted :
      (is_admin request.user_role ≡ true)
      ⊎ Passes queries.guard queries.guard_settings "publish" signed_in.user_id
          signed_in.organization_id request.user_role
  pub page : LandingPage
  pub policy : EffectiveRolePolicy
  pub governance : ArtifactPublishGovernance
  pub settings : Option ApprovalSettings
  pub found : find_page request.page_id desk.store ≡ some page
  pub has_policy :
      get_effective_policy queries.guard.find_assignment signed_in.organization_id signed_in.user_id
        request.user_role
      ≡ ok policy
  pub generates : MayGenerate policy page
  pub has_governance :
      get_artifact_publish_governance queries.find_policy signed_in.organization_id ≡ ok governance
  pub in_time : IsInTime queries.add_days now governance request.options
  pub has_settings : queries.get_settings signed_in.organization_id ≡ ok settings
  pub needs_none : NeedsNone settings page.include_company_name
  pub publishes :
      (publish texts version_id now request.page_id request.options desk.store).1 ≡ ok slug
