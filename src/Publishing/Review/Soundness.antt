-- ===== src/Publishing/Review/Soundness.antt =====
-- What every review keeps of a publish request
-- (src/api/landing-page/publish-routes-approvals.ts).
use text.Mathlib.TextEquality.{eq_iff}
use webappv.Common.{
  ℕ, String, ◌≡◌, sym, ◌∙◌, ◌≢◌, inl, inr, ◌≤◌, ◌<◌, leb, ltb, true, false, Option, some, List, [],
  ◌∷◌, ◌++◌, Memᴰ, arith, ◌==◌, string_equality, nat_equality, any, Bool-cases,
}
use webappv.Publishing.Eligibility.{PublishApprovalStep}
use webappv.Publishing.Review.{
  Approval, ApprovalRequest, Effect, update_request, current_order, step_at, is_by, approvals_for,
  min_approvals_of, first_step_order,
}
use webappv.Publishing.Review.Chain.{
  IsOrdered, step_at-mem, first_step_order-le, approvals_by, count-push, count_of_not_any,
}

-- Every step of the chain has the approvals that it asks for.
abbrev pub AllApproved : ApprovalRequest → Type 0
AllApproved r =
    (s : PublishApprovalStep)
    → Memᴰ s r.payload.steps
    → s.min_approvals ≤ approvals_for s.step_order r.payload.approvals

-- The steps are in order; those before the current one have their approvals; nobody approved a
-- step twice; an approved request has all its approvals.
pub record IsSound (r : ApprovalRequest) : Type 0 where
  pub ordered : IsOrdered r.payload.steps
  pub passed :
      (s : PublishApprovalStep)
      → Memᴰ s r.payload.steps
      → s.step_order < current_order r.payload
      → s.min_approvals ≤ approvals_for s.step_order r.payload.approvals
  pub distinct : (order : ℕ) (user_id : String) → approvals_by order user_id r.payload.approvals ≤ 1
  pub final : r.status ≡ "APPROVED" → AllApproved r

-- The stored request after the effects of a review.
abbrev pub next_request : ApprovalRequest → List Effect → ApprovalRequest
next_request r [] = r
next_request r (update_request r' ∷ effects) = next_request r' effects
next_request r (_ ∷ effects) = next_request r effects

-- A pending request with no approval yet, at the first of its steps.
pub record IsFresh (r : ApprovalRequest) : Type 0 where
  pub is_pending : r.status ≡ "PENDING"
  pub steps_ordered : IsOrdered r.payload.steps
  pub no_approvals : r.payload.approvals ≡ []
  pub at_first : current_order r.payload ≡ first_step_order r.payload.steps

pub pending_ne_approved : ◌≢◌ {A = String} "PENDING" "APPROVED"
pending_ne_approved = ground (arith, eq_iff "PENDING" "APPROVED")

pub rejected_ne_approved : ◌≢◌ {A = String} "REJECTED" "APPROVED"
rejected_ne_approved = ground (arith, eq_iff "REJECTED" "APPROVED")

pub IsFresh-IsSound : (r : ApprovalRequest) → IsFresh r → IsSound r
IsFresh-IsSound r f = record {
  ordered = f.steps_ordered;
  passed = λ s m lt. absurd (omega (arith, first_step_order-le f.steps_ordered m, f.at_first));
  distinct = λ order user_id. rw f.no_approvals (omega arith);
  final = λ e. absurd (pending_ne_approved (sym f.is_pending ∙ e));
}

module _ (order : ℕ) (user_id : String) (notes : Option String) (old : List Approval) where
  abbrev pub pushed : List Approval
  pushed = old ++ record { step_order = order; reviewer_user_id = user_id; notes = notes } ∷ []

  grows : (o : ℕ) → approvals_for o old ≤ approvals_for o pushed
  grows o = omega (
    arith,
    count-push (λ a. a.step_order == o) old
        (record { step_order = order; reviewer_user_id = user_id; notes = notes }),
  )

  still_distinct :
      any (is_by order user_id) old ≡ false
      → ((o : ℕ) (u : String) → approvals_by o u old ≤ 1)
      → (o : ℕ) (u : String) → approvals_by o u pushed ≤ 1
  still_distinct fresh h o u =
      let a : Approval = record { step_order = order; reviewer_user_id = user_id; notes = notes } in
      elim (Bool-cases (is_by o u a)) [
        | inl e ↦
            let same_order : order ≡ o = ground (arith, eq_iff user_id u) in
            let same_user : user_id ≡ u = ground (arith, eq_iff user_id u) in
            let zero : approvals_by o u old ≡ 0 =
              rw (← same_order, ← same_user) (count_of_not_any (is_by order user_id) old fresh) in
            ground (arith, count-push (is_by o u) old a)
        | inr e ↦ ground (arith, count-push (is_by o u) old a, h o u)
      ]

module _ (r : ApprovalRequest) (sound : IsSound r) (user_id : String) (notes : Option String) where
  abbrev pub order : ℕ
  order = current_order r.payload

  abbrev pub all : List Approval
  all = pushed order user_id notes r.payload.approvals

  pub before :
      (s : PublishApprovalStep)
      → Memᴰ s r.payload.steps
      → s.step_order < order
      → s.min_approvals ≤ approvals_for s.step_order all
  before s m lt =
      omega (arith, sound.passed s m lt, grows order user_id notes r.payload.approvals s.step_order)

  -- with the current step completed, it and all before it have their approvals
  pub up_to :
      leb (min_approvals_of (step_at order r.payload.steps)) (approvals_for order all) ≡ true
      → (s : PublishApprovalStep) → Memᴰ s r.payload.steps
      → s.step_order ≤ order
      → s.min_approvals ≤ approvals_for s.step_order all
  up_to completed s m le = elim (Bool-cases (ltb s.step_order order)) [
    | inl b ↦ before s m (ground arith)
    | inr b ↦
        let same : s.step_order ≡ order = ground arith in
        let found : step_at order r.payload.steps ≡ some s =
          rw (← same) (step_at-mem sound.ordered m) in
        let enough : s.min_approvals ≤ approvals_for order all =
          let c = rw found at completed in ground arith in
        rw same enough
  ]

  pub wait-IsSound :
      (order' : ℕ)
      → r.status ≡ "PENDING"
      → any (is_by order user_id) r.payload.approvals ≡ false
      → ((s : PublishApprovalStep)
          → Memᴰ s r.payload.steps
          → s.step_order < order'
          → s.min_approvals ≤ approvals_for s.step_order all)
      → IsSound (record r {
        payload = record (r.payload) { approvals = all; current_step_order = some order' };
      })
  wait-IsSound order' p fresh h = record {
    ordered = sound.ordered;
    passed = h;
    distinct = still_distinct order user_id notes r.payload.approvals fresh sound.distinct;
    final = λ e. absurd (pending_ne_approved (sym p ∙ e));
  }

  pub done-IsSound :
      any (is_by order user_id) r.payload.approvals ≡ false
      → ((s : PublishApprovalStep)
          → Memᴰ s r.payload.steps
          → s.min_approvals ≤ approvals_for s.step_order all)
      → IsSound (record r {
        status = "APPROVED";
        reviewer_user_id = some user_id;
        payload = record (r.payload) { approvals = all; current_step_order = some order };
      })
  done-IsSound fresh h = record {
    ordered = sound.ordered;
    passed = λ s m lt. h s m;
    distinct = still_distinct order user_id notes r.payload.approvals fresh sound.distinct;
    final = λ e. h;
  }

  pub reject-IsSound : IsSound (record r { status = "REJECTED"; reviewer_user_id = some user_id })
  reject-IsSound = record {
    ordered = sound.ordered;
    passed = sound.passed;
    distinct = sound.distinct;
    final = λ e. absurd (rejected_ne_approved e);
  }
