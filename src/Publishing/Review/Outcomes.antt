-- ===== src/Publishing/Review/Outcomes.antt =====
-- When a review publishes, and what it does otherwise
-- (src/api/landing-page/publish-routes-approvals.ts).
use webappv.Common.{
  ℕ, String, ◌≡◌, refl, ◌⊎◌, inl, inr, Bool, true, false, Option, List, [], ◌∷◌, ◌++◌, arith,
  string_equality, Option-cases, Result, ok, throw, >>=-eq-ok, truthy,
}
use webappv.Publishing.Eligibility.{PublishApprovalStep}
use webappv.Publishing.Review.{
  Approval, ApprovalRequest, Decision, approve, reject, Reviewed, Reply, unauthorized, rejected,
  approved, pending, current_order, answer, step_at, ReviewQueries, ReviewInput,
}
use webappv.Publishing.Review.Handler.{
  publish_page, finish_publish, wait, record_approval, approve_request, reject_request,
  decide_request, review_step, review_request, find_and_review, or_failed, review_as, review,
}

-- An answer that leaves the request and the page as they are.
abbrev pub is_refusal : Reply → Bool
is_refusal approved = false
is_refusal rejected = false
is_refusal (pending order) = false
is_refusal _ = true

module _ (q : ReviewQueries) (input : ReviewInput) (user_id organization_id : String) where
  finish_refused :
      (r : ApprovalRequest) (all : List Approval) (order : ℕ) (x : Reviewed)
      → finish_publish q input user_id organization_id r all order ≡ ok x
      → (x.effects ≡ []) ⊎ (is_refusal x.reply ≡ false)
  unfolding finish_publish publish_page
  finish_refused r all order x h = ground arith

  decide_refused :
      (d : Decision) (r : ApprovalRequest) (order : ℕ) (step : Option PublishApprovalStep)
      (x : Reviewed)
      → decide_request q input user_id organization_id d r order step ≡ ok x
      → (x.effects ≡ []) ⊎ (is_refusal x.reply ≡ false)
  unfolding decide_request reject_request approve_request record_approval wait
  decide_refused reject r order step x h = ground arith
  decide_refused approve r order step x h =
      let all =
        r.payload.approvals
        ++ record { step_order = order; reviewer_user_id = user_id; notes = input.notes } ∷ [] in
      ground (arith, finish_refused r all order x)

  review_request_refused :
      (r : ApprovalRequest) (x : Reviewed)
      → review_request q input user_id organization_id r ≡ ok x
      → (x.effects ≡ []) ⊎ (is_refusal x.reply ≡ false)
  unfolding review_request review_step
  review_request_refused r x h =
      let order = current_order r.payload in
      ground (arith, decide_refused input.decision r order (step_at order r.payload.steps) x)

  find_refused :
      (x : Reviewed)
      → find_and_review q input user_id organization_id ≡ ok x
      → (x.effects ≡ []) ⊎ (is_refusal x.reply ≡ false)
  unfolding find_and_review
  find_refused x h =
      let (found, _, rest) = >>=-eq-ok (q.find_request input.request_id organization_id) _ h in
      elim (Option-cases found) [
        | inl e ↦ ground arith
        | inr (r, e) ↦ review_request_refused r x (rw e at rest)
      ]

-- a review by a known user of a known organization, or the answer 401
review_cases :
    (q : ReviewQueries) (input : ReviewInput)
    → (review q input ≡ answer unauthorized)
      ⊎ ((user_id : String) × (organization_id : String) × (review q input
            ≡ or_failed (review_as q input user_id organization_id)))
unfolding review
review_cases q input = elim (Option-cases (truthy input.params.organization_id)) [
  | inl e ↦ inl (rw (e, review))
  | inr (o, e) ↦ elim (Option-cases (truthy input.params.user_id)) [
    | inl f ↦ inl (rw (e, f, review))
    | inr (u, f) ↦ inr (u, o, rw (e, f, review))
  ]
]

or_failed_refused :
    (m : Result Reviewed)
    → ((x : Reviewed) → m ≡ ok x → (x.effects ≡ []) ⊎ (is_refusal x.reply ≡ false))
    → is_refusal (or_failed m).reply ≡ true
    → (or_failed m).effects ≡ []
unfolding or_failed
or_failed_refused (ok x) h r = elim (h x refl) [ inl e ↦ e | inr e ↦ cc ]
or_failed_refused (throw e) h r = refl

review_as_refused :
    (q : ReviewQueries) (input : ReviewInput) (user_id organization_id : String) (x : Reviewed)
    → review_as q input user_id organization_id ≡ ok x
    → (x.effects ≡ []) ⊎ (is_refusal x.reply ≡ false)
unfolding review_as
review_as_refused q input u o x h = ground (arith, find_refused q input u o x)

-- Where no write fails, every answer but APPROVED, REJECTED and PENDING leaves the request, the
-- page, the audit log and the queues as they are.
pub review_refused :
    (q : ReviewQueries) (input : ReviewInput)
    → is_refusal (review q input).reply ≡ true
    → (review q input).effects ≡ []
review_refused q input h = elim (review_cases q input) [
  | inl e ↦ rw e
  | inr (u, o, e) ↦
      rw e (or_failed_refused (review_as q input u o) (review_as_refused q input u o) (rw e at h))
]
