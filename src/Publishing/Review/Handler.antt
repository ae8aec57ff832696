-- ===== src/Publishing/Review/Handler.antt =====
-- The handler of src/api/landing-page/publish-routes-approvals.ts, by its parts.
use webappv.Common.{
  ℕ, String, Bool, true, false, not, ◌&&◌, ◌+◌, ◌*◌, ltb, leb, Option, none, some, List, [], ◌∷◌,
  ◌++◌, if◌then◌else◌, ◌==◌, string_equality, nat_equality, any, truthy, Result, ok, throw, ◌>>=◌,
}
use webappv.Publishing.Eligibility.{PublishApprovalStep, can_user_approve_step}
use webappv.Publishing.NamedStories.{
  can_generate_named_stories, can_review_publish_approvals, get_artifact_publish_governance,
}
use webappv.Publishing.Review.{
  Approval, ApprovalRequest, Decision, approve, reject, Effect, update_request, publish,
  clear_schedule, enqueue_validation, dispatch_webhook, audit, unauthorized, not_found, failed,
  rejected, approved, publish_refused, bad_request, forbidden, conflict, pending, Reviewed, answer,
  current_order, step_at, step_after, is_by, approvals_for, min_approvals_of, ReviewQueries,
  ReviewInput,
}

-- `expiresAt > maxDate`, with days of 24 hours; a bound of 0 days is falsy and is no bound
unfoldable pub expires_too_late : Option ℕ → Option ℕ → ℕ → Bool
expires_too_late (some expires_at) (some days) now =
    not (days == 0) && ltb (now + days * 86_400_000) expires_at
expires_too_late _ _ now = false

module _ (q : ReviewQueries) (input : ReviewInput) (user_id organization_id : String) where
  -- the request as the last `updateApprovalRequest` leaves it
  unfoldable pub approved_request : ApprovalRequest → List Approval → ℕ → ApprovalRequest
  approved_request request approvals order = record request {
    status = "APPROVED";
    reviewer_user_id = some user_id;
    payload = record (request.payload) { approvals = approvals; current_step_order = some order };
  }

  unfoldable pub publish_effects : ApprovalRequest → List Approval → ℕ → List Effect
  publish_effects request approvals order =
      publish request.target_id
      ∷ clear_schedule request.target_id
      ∷ update_request (approved_request request approvals order)
      ∷ audit "PAGE_PUBLISH_APPROVAL_APPROVED"
      ∷ enqueue_validation request.target_id
      ∷ dispatch_webhook request.target_id
      ∷ []

  unfoldable pub publish_page : ApprovalRequest → List Approval → ℕ → Result Reviewed
  publish_page request approvals order = do
    published ← q.try_publish request.target_id
    ok (
        if published
        then record { effects = publish_effects request approvals order; reply = approved }
        else answer publish_refused)

  -- from `publishOptions` on
  unfoldable pub finish_publish : ApprovalRequest → List Approval → ℕ → Result Reviewed
  finish_publish request approvals order = do
    named ← q.page_includes_company_name request.target_id
    governance ← get_artifact_publish_governance q.find_governance organization_id
    (if expires_too_late request.payload.expires_at governance.max_expiration_days input.now
        then ok (answer (bad_request "Max expiration"))
        else do
          may_name ←
              (if named
                then can_generate_named_stories q.approval.find_assignment q.has_user_permission
                    input.params
                else ok true)
          (if may_name
              then publish_page request approvals order
              else ok (answer (forbidden "Your role cannot generate named stories."))))

  -- the request stays pending, with the approval and the order of the step to approve next
  unfoldable pub wait : ApprovalRequest → List Approval → ℕ → Reviewed
  wait request approvals order = record {
    effects =
        update_request (record request {
          payload = record (request.payload) {
            approvals = approvals;
            current_step_order = some order;
          };
        })
        ∷ [];
    reply = pending order;
  }

  -- from `approvals.push` on
  unfoldable pub record_approval :
      ApprovalRequest → ℕ → Option PublishApprovalStep → Result Reviewed
  record_approval request order step =
      let approvals =
        request.payload.approvals
        ++ record { step_order = order; reviewer_user_id = user_id; notes = input.notes } ∷ [] in
      let completed = leb (min_approvals_of step) (approvals_for order approvals) in
      elim (step_after order request.payload.steps) [
        | none ↦
            if completed
            then finish_publish request approvals order
            else ok (wait request approvals order)
        | some later ↦ ok (wait request approvals (if completed then later.step_order else order))
      ]

  unfoldable pub approve_request :
      ApprovalRequest → ℕ → Option PublishApprovalStep → Result Reviewed
  approve_request request order step =
      if any (is_by order user_id) request.payload.approvals
      then ok (answer (conflict "You already approved this workflow step."))
      else record_approval request order step

  unfoldable pub reject_request : ApprovalRequest → Reviewed
  reject_request request = record {
    effects =
        update_request (record request { status = "REJECTED"; reviewer_user_id = some user_id })
        ∷ audit "PAGE_PUBLISH_APPROVAL_REJECTED"
        ∷ [];
    reply = rejected;
  }

  unfoldable pub decide_request :
      Decision → ApprovalRequest → ℕ → Option PublishApprovalStep → Result Reviewed
  decide_request reject request order step = ok (reject_request request)
  decide_request approve request order step = approve_request request order step

  -- `currentStep && !(await canUserApproveStep(…))`
  unfoldable pub is_eligible : Option PublishApprovalStep → Option String → Result Bool
  is_eligible none requested_by = ok true
  is_eligible (some step) requested_by =
      can_user_approve_step q.approval input.params step requested_by

  unfoldable pub review_step : ApprovalRequest → ℕ → Option PublishApprovalStep → Result Reviewed
  review_step request order step = do
    eligible ← is_eligible step request.requested_by_user_id
    (if eligible
        then decide_request input.decision request order step
        else ok (answer (forbidden "You are not eligible to approve this workflow step.")))

  -- from the test of the status on
  unfoldable pub review_request : ApprovalRequest → Result Reviewed
  review_request request =
      if request.status == "PENDING"
      then review_step request (current_order request.payload)
          (step_at (current_order request.payload) request.payload.steps)
      else ok (answer (conflict "Approval request is already finalized"))

  unfoldable pub find_and_review : Result Reviewed
  find_and_review = do
    request ← q.find_request input.request_id organization_id
    elim request [ none ↦ ok (answer not_found) | some r ↦ review_request r ]

  -- what stands behind the test of the ids
  unfoldable pub review_as : Result Reviewed
  review_as = do
    allowed ←
        can_review_publish_approvals q.approval.find_assignment q.has_user_permission input.params
    (if allowed then find_and_review else ok (answer (forbidden "permission_denied")))

-- the `catch` of the handler, for errors that `sendPublishError` does not answer
unfoldable pub or_failed : Result Reviewed → Reviewed
or_failed (ok r) = r
or_failed (throw e) = answer failed

-- The handler, for a body that parses. The permission test stands before the `try`; an error there
-- is answered by the route's wrapper.
unfoldable pub review : ReviewQueries → ReviewInput → Reviewed
review q input = elim (truthy input.params.organization_id) [
  | none ↦ answer unauthorized
  | some organization_id ↦ elim (truthy input.params.user_id) [
    | none ↦ answer unauthorized
    | some user_id ↦ or_failed (review_as q input user_id organization_id)
  ]
]
