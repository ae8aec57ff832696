-- ===== src/Publishing/Review/Kept.antt =====
-- What no review changes of a publish request
-- (src/api/landing-page/publish-routes-approvals.ts).
use webappv.Common.{ℕ, String, ◌≡◌, List, [], ◌∷◌, ◌++◌, Option, arith, ok}
use webappv.Publishing.Eligibility.{PublishApprovalStep}
use webappv.Publishing.Review.{
  Approval, ApprovalRequest, Decision, approve, reject, Reviewed, current_order, step_at,
  ReviewQueries, ReviewInput,
}
use webappv.Publishing.Review.Handler.{
  approved_request, publish_effects, publish_page, finish_publish, wait, record_approval,
  approve_request, reject_request, decide_request, review_step, review_request,
}
use webappv.Publishing.Review.Soundness.{next_request}

module _ (q : ReviewQueries) (input : ReviewInput) (user_id organization_id : String) where
  finish_publish-steps :
      (r : ApprovalRequest) (all : List Approval) (order : ℕ) (x : Reviewed)
      → finish_publish q input user_id organization_id r all order ≡ ok x
      → (next_request r x.effects).payload.steps ≡ r.payload.steps
  unfolding finish_publish publish_page publish_effects approved_request
  finish_publish-steps r all order x h = ground arith

  decide_request-steps :
      (d : Decision) (r : ApprovalRequest) (order : ℕ) (step : Option PublishApprovalStep)
      (x : Reviewed)
      → decide_request q input user_id organization_id d r order step ≡ ok x
      → (next_request r x.effects).payload.steps ≡ r.payload.steps
  unfolding decide_request reject_request approve_request record_approval wait
  decide_request-steps reject r order step x h = ground arith
  decide_request-steps approve r order step x h =
      let all =
        r.payload.approvals
        ++ record { step_order = order; reviewer_user_id = user_id; notes = input.notes } ∷ [] in
      ground (arith, finish_publish-steps r all order x)

  -- A review leaves the chain of steps as it is.
  pub review_request-steps :
      (r : ApprovalRequest) (x : Reviewed)
      → review_request q input user_id organization_id r ≡ ok x
      → (next_request r x.effects).payload.steps ≡ r.payload.steps
  unfolding review_request review_step
  review_request-steps r x h =
      let order = current_order r.payload in
      ground (arith, decide_request-steps input.decision r order (step_at order r.payload.steps) x)
