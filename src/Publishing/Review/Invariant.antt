-- ===== src/Publishing/Review/Invariant.antt =====
-- Reviews of a publish request one after another
-- (src/api/landing-page/publish-routes-approvals.ts).
use text.Mathlib.TextEquality.{eq_iff}
use webappv.Common.{
  ℕ, String, ◌≡◌, ◌⊎◌, inl, inr, ◌≤◌, ◌<◌, leb, false, List, [], Memᴰ, arith, ◌==◌, string_equality,
  any, Bool-cases, Option-cases, ok, >>=-eq-ok, ok_injective,
}
use webappv.Publishing.Eligibility.{PublishApprovalStep}
use webappv.Publishing.Review.{
  Approval, ApprovalRequest, Decision, approve, reject, Reviewed, current_order, step_at,
  step_after, is_by, approvals_for, min_approvals_of, ReviewQueries, ReviewInput,
}
use webappv.Publishing.Review.Handler.{
  approved_request, publish_effects, publish_page, finish_publish, wait, record_approval,
  approve_request, reject_request, decide_request, is_eligible, review_step, review_request,
}
use webappv.Publishing.Review.Chain.{step_after-none, step_after-some}
use webappv.Publishing.Review.Soundness.{
  IsSound, next_request, pushed, before, up_to, wait-IsSound, done-IsSound, reject-IsSound,
}

module _ (q : ReviewQueries) (input : ReviewInput) (user_id organization_id : String) where
  -- The last part of an approval either has no effect or publishes.
  finish_cases :
      (r : ApprovalRequest) (all : List Approval) (order : ℕ) (x : Reviewed)
      → finish_publish q input user_id organization_id r all order ≡ ok x
      → (x.effects ≡ []) ⊎ (x.effects ≡ publish_effects q input user_id organization_id r all order)
  unfolding finish_publish publish_page
  finish_cases r all order x h = ground arith

  module _ (r : ApprovalRequest) (sound : IsSound r) (p : r.status ≡ "PENDING") where
    abbrev now_order : ℕ
    now_order = current_order r.payload

    abbrev with_new : List Approval
    with_new = pushed now_order user_id input.notes r.payload.approvals

    waits :
        (order' : ℕ) (x : Reviewed)
        → any (is_by now_order user_id) r.payload.approvals ≡ false
        → ((s : PublishApprovalStep)
            → Memᴰ s r.payload.steps
            → s.step_order < order'
            → s.min_approvals ≤ approvals_for s.step_order with_new)
        → ok (wait q input user_id organization_id r with_new order') ≡ ok x
        → IsSound (next_request r x.effects)
    unfolding wait
    waits order' x fresh h e =
        rw (← ok_injective e) (wait-IsSound r sound user_id input.notes order' p fresh h)

    publishes :
        (x : Reviewed)
        → any (is_by now_order user_id) r.payload.approvals ≡ false
        → ((s : PublishApprovalStep)
            → Memᴰ s r.payload.steps
            → s.min_approvals ≤ approvals_for s.step_order with_new)
        → finish_publish q input user_id organization_id r with_new now_order ≡ ok x
        → IsSound (next_request r x.effects)
    unfolding publish_effects approved_request
    publishes x fresh h e = elim (finish_cases r with_new now_order x e) [
      | inl none_made ↦ rw none_made sound
      | inr made ↦ rw made (done-IsSound r sound user_id input.notes fresh h)
    ]

    record_approval-IsSound :
        (x : Reviewed)
        → any (is_by now_order user_id) r.payload.approvals ≡ false
        → record_approval q input user_id organization_id r now_order
            (step_at now_order r.payload.steps)
          ≡ ok x
        → IsSound (next_request r x.effects)
    unfolding record_approval
    record_approval-IsSound x fresh e =
        let needed = min_approvals_of (step_at now_order r.payload.steps) in
        elim (Bool-cases (leb needed (approvals_for now_order with_new))) [
          | inl done ↦ elim (Option-cases (step_after now_order r.payload.steps)) [
            | inl last ↦
                publishes x fresh
                  (λ s m.
                    up_to r sound user_id input.notes done s m (step_after-none now_order last m))
                  (rw (last, done, record_approval) at e)
            | inr (later, found) ↦
                waits later.step_order x fresh
                  (λ s m lt.
                    up_to r sound user_id input.notes done s m
                      (step_after-some now_order sound.ordered found m lt))
                  (rw (found, done, record_approval) at e)
          ]
          | inr open_step ↦ elim (Option-cases (step_after now_order r.payload.steps)) [
            | inl last ↦
                waits now_order x fresh (before r sound user_id input.notes)
                  (rw (last, open_step, record_approval) at e)
            | inr (later, found) ↦
                waits now_order x fresh (before r sound user_id input.notes)
                  (rw (found, open_step, record_approval) at e)
          ]
        ]

    decide_request-IsSound :
        (d : Decision) (x : Reviewed)
        → decide_request q input user_id organization_id d r now_order
            (step_at now_order r.payload.steps)
          ≡ ok x
        → IsSound (next_request r x.effects)
    unfolding decide_request reject_request approve_request
    decide_request-IsSound reject x e =
        rw (← ok_injective e) (reject-IsSound r sound user_id input.notes)
    decide_request-IsSound approve x e =
        elim (Bool-cases (any (is_by now_order user_id) r.payload.approvals)) [
          | inl again ↦ rw (← ok_injective (rw again at e)) sound
          | inr fresh ↦ record_approval-IsSound x fresh (rw fresh at e)
        ]

  -- Every review that answers keeps the request sound, whatever its decision and its user.
  review_request-IsSound :
      (r : ApprovalRequest) (x : Reviewed)
      → IsSound r
      → review_request q input user_id organization_id r ≡ ok x
      → IsSound (next_request r x.effects)
  unfolding review_request review_step
  review_request-IsSound r x sound e = elim (Bool-cases (r.status == "PENDING")) [
    | inr closed ↦ rw (← ok_injective (rw closed at e)) sound
    | inl waiting ↦
        let order = current_order r.payload in
        let step = step_at order r.payload.steps in
        let (b, _, rest) =
          >>=-eq-ok (is_eligible q input user_id organization_id step r.requested_by_user_id) _
            (rw waiting at e) in
        elim (Bool-cases b) [
          | inl c ↦
              decide_request-IsSound r sound ((eq_iff r.status "PENDING").0 waiting) input.decision
                x (rw c at rest)
          | inr c ↦ rw (← ok_injective (rw c at rest)) sound
        ]
  ]

-- The requests that this route's reviews can make of `first`: by any users, one after another, with
-- any answers of the database.
pub data Reached (first : ApprovalRequest) : ApprovalRequest → Type 0 where
  start : Reached first first
  reviewed :
      {r : ApprovalRequest} (q : ReviewQueries) (input : ReviewInput)
      (user_id organization_id : String) (x : Reviewed)
      → Reached first r
      → review_request q input user_id organization_id r ≡ ok x
      → Reached first (next_request r x.effects)

pub Reached-IsSound : {first r : ApprovalRequest} → IsSound first → Reached first r → IsSound r
Reached-IsSound h start = h
Reached-IsSound h (reviewed {r} q input u o x reached e) =
    review_request-IsSound q input u o r x (Reached-IsSound h reached) e
