-- ===== src/Publishing/Review.antt =====
-- src/api/landing-page/publish-routes-approvals.ts: the review of a publish request.
-- The handler's effects are a list, in the order in which it makes them; that one of them fails is
-- not modelled. The texts of an audit
-- entry, of an outbound event and of an answer's body are left out.
pub mod Chain
pub mod Handler
pub mod Soundness
pub mod Kept
pub mod Invariant
pub mod Outcomes
use webappv.Common.{
  ℕ, String, Bool, true, false, not, ◌&&◌, ◌||◌, ◌+◌, ◌*◌, ltb, leb, Option, none, some, List, [],
  ◌∷◌, ◌++◌, if◌then◌else◌, ◌==◌, string_equality, nat_equality, length, any, select, find, truthy,
  Result, ok, throw, ◌>>=◌,
}
use webappv.Access.Roles.{UserRole, PermissionType}
use webappv.Access.Schema.{Assignment}
use webappv.Publishing.Eligibility.{
  PublishApprovalStep, Params, ApprovalQueries, can_user_approve_step,
}
use webappv.Publishing.NamedStories.{
  ArtifactPublishGovernance, can_generate_named_stories, can_review_publish_approvals,
  get_artifact_publish_governance,
}

pub record Approval : Type 0 where
  pub step_order : ℕ
  pub reviewer_user_id : String
  pub notes : Option String

-- `PublishApprovalPayload`; of the options the date of expiry is read here, in milliseconds
pub record Payload : Type 0 where
  pub expires_at : Option ℕ
  pub steps : List PublishApprovalStep
  pub approvals : List Approval
  pub current_step_order : Option ℕ

pub record ApprovalRequest : Type 0 where
  pub id : String
  pub target_id : String
  pub requested_by_user_id : Option String
  pub status : String
  pub reviewer_user_id : Option String
  pub payload : Payload

pub data Decision : Type 0 where
  approve reject : Decision

pub data Effect : Type 0 where
  update_request : ApprovalRequest → Effect
  publish clear_schedule enqueue_validation dispatch_webhook : (page_id : String) → Effect
  audit : (action : String) → Effect

pub data Reply : Type 0 where
  unauthorized not_found failed rejected approved publish_refused : Reply
  bad_request forbidden conflict : String → Reply
  pending : (current_step_order : ℕ) → Reply

pub record Reviewed : Type 0 where
  pub effects : List Effect
  pub reply : Reply

-- an answer with no effect
abbrev pub answer : Reply → Reviewed
answer r = record { effects = []; reply = r }

-- `payload.current_step_order ?? steps[0]?.step_order ?? 1`
abbrev pub first_step_order : List PublishApprovalStep → ℕ
first_step_order [] = 1
first_step_order (step ∷ steps) = step.step_order

abbrev pub current_order : Payload → ℕ
current_order p = elim p.current_step_order [ none ↦ first_step_order p.steps | some n ↦ n ]

abbrev pub step_at : ℕ → List PublishApprovalStep → Option PublishApprovalStep
step_at order = find (λ step. step.step_order == order)

abbrev pub step_after : ℕ → List PublishApprovalStep → Option PublishApprovalStep
step_after order = find (λ step. ltb order step.step_order)

abbrev pub is_by : ℕ → String → Approval → Bool
is_by order user_id a = a.step_order == order && a.reviewer_user_id == user_id

abbrev pub approvals_for : ℕ → List Approval → ℕ
approvals_for order approvals = length (select (λ a. a.step_order == order) approvals)

-- `currentStep?.min_approvals ?? 1`
abbrev pub min_approvals_of : Option PublishApprovalStep → ℕ
min_approvals_of none = 1
min_approvals_of (some step) = step.min_approvals

-- what the handler asks of the rest of the program and of the database
pub record ReviewQueries : Type 0 where
  pub approval : ApprovalQueries
  pub has_user_permission : String → PermissionType → Result Bool
  pub find_request : (request_id organization_id : String) → Result (Option ApprovalRequest)
  pub page_includes_company_name : (page_id : String) → Result Bool
  pub find_governance : String → Result (Option ArtifactPublishGovernance)
  -- `editor.publish`, which validates the page first; an error says if `sendPublishError` knows it
  pub try_publish : (page_id : String) → Result Bool

pub record ReviewInput : Type 0 where
  pub request_id : String
  pub params : Params
  pub decision : Decision
  pub notes : Option String
  pub now : ℕ
