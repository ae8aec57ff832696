-- ===== src/Publishing/Tests.antt =====
-- The theorems on publishing at concrete requests, and runs of the review handler of
-- src/api/landing-page/publish-routes-approvals.ts.
use text.Mathlib.TextEquality.{eq_iff}
use webappv.Common.{
  ℕ, String, ◌≡◌, refl, inr, ◌≢◌, true, false, Option, none, some, List, [], ◌∷◌, ok, ◌>>=◌,
  string_equality, arith,
}
use webappv.Access.Roles.{member, PermissionType-discrete}
use webappv.Access.Schema.{RoleProfile, Assignment}
use webappv.Access.RoleProfiles.{
  sales, billing_admin, preset, policy_of_profile, get_effective_policy,
}
use webappv.Access.Policy.{
  PolicyQueries, view_named_story, evaluate, deny, story_sensitivity_denied,
}
use webappv.Publishing.Eligibility.{
  self, group, PublishApprovalStep, Params, ApprovalQueries, can_user_approve_step,
}
use webappv.Publishing.Eligibility.Laws.{unasked, in_group}
use webappv.Publishing.Eligibility.Steps.{by_rules, can_user_approve_step_iff}
use webappv.Publishing.NamedStories.{
  permitted_by, can_access_named_stories, can_review_publish_approvals,
  get_artifact_publish_governance,
}
use webappv.Publishing.NamedStories.Laws.{view_named_story_disagrees}
use webappv.Publishing.Review.{
  ApprovalRequest, approve, approved, ReviewQueries, ReviewInput, Approval,
}
use webappv.Publishing.Review.Handler.{
  review, review_as, finish_publish, publish_page, approved_request, expires_too_late, or_failed,
}
use webappv.Publishing.Review.Outcomes.{review_refused}

-- Two steps: a group of editors approves, then a billing or approval admin.
abbrev editors_step : PublishApprovalStep
editors_step = record {
  step_order = 1;
  min_approvals = 2;
  required_role_profile_key = none;
  required_user_role = none;
  approver_scope_type = some group;
  approver_scope_value = some "editors";
  allow_self_approval = false;
}

abbrev self_step : PublishApprovalStep
self_step = record {
  step_order = 2;
  min_approvals = 1;
  required_role_profile_key = none;
  required_user_role = none;
  approver_scope_type = some self;
  approver_scope_value = none;
  allow_self_approval = false;
}

abbrev new_request : ApprovalRequest
new_request = record {
  id = "q1";
  target_id = "page";
  requested_by_user_id = some "rita";
  status = "PENDING";
  reviewer_user_id = none;
  payload = record {
    expires_at = none;
    steps = editors_step ∷ self_step ∷ [];
    approvals = [];
    current_step_order = some 1;
  };
}

abbrev params_of : String → Params
params_of u = record { organization_id = some "org"; user_id = some u; user_role = some member }

abbrev assignment_of : RoleProfile → Assignment
assignment_of p = record { user_id = "ann"; role_profile = p; assigned_by_id = none }

-- All users are in every group; they have the profile given.
abbrev queries_for : RoleProfile → ApprovalQueries
queries_for p = record {
  find_assignment = λ user_id. ok (some (assignment_of p));
  is_group_member = λ organization_id group_id user_id. ok true;
  has_team_scope = λ organization_id user_id team_key. ok false;
}

abbrev review_queries : RoleProfile → ApprovalRequest → ReviewQueries
review_queries p stored = record {
  approval = queries_for p;
  has_user_permission = λ user_id permission. ok false;
  find_request = λ request_id organization_id. ok (some stored);
  page_includes_company_name = λ page_id. ok false;
  find_governance = λ organization_id. ok none;
  try_publish = λ page_id. ok true;
}

abbrev input_of : String → ReviewInput
input_of u = record {
  request_id = "q1";
  params = params_of u;
  decision = approve;
  notes = none;
  now = 1_000;
}

can_user_approve_step_iff_example :
    can_user_approve_step
      (queries_for (preset sales "r" "org"))
      (params_of "ann")
      editors_step
      (some "rita")
    ≡ ok true
unfolding preset
can_user_approve_step_iff_example =
    (can_user_approve_step_iff (queries_for (preset sales "r" "org")) (params_of "ann") editors_step
        (some "rita")).1
      (record {
        organization_id = "org";
        user_id = "ann";
        organization = refl;
        user = refl;
        role = unasked;
        assignment = some (assignment_of (preset sales "r" "org"));
        found = refl;
        may = by_rules unasked (inr rita_ne_ann) (in_group "editors" refl refl);
      })
  where
    rita_ne_ann : ◌≢◌ {A = Option String} (some "rita") (some "ann")
    rita_ne_ann = ground (arith, eq_iff "rita" "ann")

abbrev billing : RoleProfile
billing = preset billing_admin "r3" "org"

-- Ann and Bob approve the first step, Bo the second.
abbrev by : ℕ → String → Approval
by order user_id = record { step_order = order; reviewer_user_id = user_id; notes = none }

abbrev after_ann : List Approval
after_ann = by 1 "ann" ∷ []

abbrev after_bob : List Approval
after_bob = by 1 "ann" ∷ by 1 "bob" ∷ []

abbrev after_bo : List Approval
after_bo = by 1 "ann" ∷ by 1 "bob" ∷ by 2 "bo" ∷ []

abbrev with_approvals : List Approval → ℕ → ApprovalRequest
with_approvals approvals order = record new_request {
  payload = record (new_request.payload) { approvals = approvals; current_step_order = some order };
}

abbrev ask : ReviewQueries
ask = review_queries billing new_request

abbrev approved_by_bo : ApprovalRequest
approved_by_bo =
    approved_request ask (input_of "bo") "bo" "org" (with_approvals after_bob 2) after_bo 2

-- Ann has no permission to review.
review_refused_example :
    (review (review_queries (preset sales "r" "org") new_request) (input_of "ann")).effects ≡ []
unfolding review review_as or_failed can_review_publish_approvals permitted_by get_effective_policy
    preset PermissionType-discrete
review_refused_example =
    review_refused (review_queries (preset sales "r" "org") new_request) (input_of "ann") refl

abbrev no_steps : ApprovalRequest
no_steps = record new_request { payload = record (new_request.payload) { steps = [] } }

-- The run of that review: Rita publishes the page she asked to publish.
rita_publishes :
    (finish_publish ask (input_of "rita") "rita" "org" no_steps (by 1 "rita" ∷ []) 1 >>= λ x.
    ok x.reply)
    ≡ ok approved
unfolding finish_publish publish_page expires_too_late get_artifact_publish_governance
rita_publishes = refl

abbrev engine_queries : PolicyQueries
engine_queries = record {
  find_assignment = λ user_id. ok (some (assignment_of billing));
  find_grants = λ user_id organization_id. ok [];
  has_user_permission = λ user_id permission. ok false;
}

view_named_story_disagrees_example :
    (evaluate engine_queries (record {
      action = view_named_story;
      organization_id = "org";
      user_id = "bo";
      user_role = some member;
      account_id = none;
      pii_export_enabled = none;
    })
      ≡ ok (deny story_sensitivity_denied))
    × (can_access_named_stories engine_queries.find_assignment engine_queries.has_user_permission
          (params_of "bo")
        ≡ ok true)
unfolding get_effective_policy preset
view_named_story_disagrees_example =
    view_named_story_disagrees engine_queries "bo" "org" (some member) none none
      (policy_of_profile billing) refl refl refl refl refl refl
