-- ===== src/Publishing/Review/Chain.antt =====
-- The steps of a chain in order, and the count of approvals
-- (src/api/landing-page/publish-routes-approvals.ts).
use webappv.Common.{
  ℕ, String, ◌≡◌, refl, ap, ◌+◌, ◌≤◌, ◌<◌, ltb, Bool, false, none, some, List, [], ◌∷◌, ◌++◌, Memᴰ,
  arith, if◌then◌else◌, string_equality, nat_equality, length, any, select, Bool-cases, inl, inr,
  ◌∙◌,
}
use webappv.Publishing.Eligibility.{PublishApprovalStep}
use webappv.Publishing.Review.{Approval, step_at, step_after, is_by, first_step_order}

-- Every step of the rest comes later.
abbrev pub AllAfter : ℕ → List PublishApprovalStep → Type 0
AllAfter order [] = Unit
AllAfter order (step ∷ steps) = (order < step.step_order) × AllAfter order steps

-- The steps have increasing orders.
abbrev pub IsOrdered : List PublishApprovalStep → Type 0
IsOrdered [] = Unit
IsOrdered (step ∷ steps) = AllAfter step.step_order steps × IsOrdered steps

pub AllAfter-mem :
    {order : ℕ} {s : PublishApprovalStep} {steps : List PublishApprovalStep}
    → AllAfter order steps
    → Memᴰ s steps
    → order < s.step_order
AllAfter-mem h (Memᴰ.head e) = rw e h.0
AllAfter-mem h (Memᴰ.tail m) = AllAfter-mem h.1 m

-- A step of the chain is the one that is found at its order.
pub step_at-mem :
    {s : PublishApprovalStep} {steps : List PublishApprovalStep}
    → IsOrdered steps
    → Memᴰ s steps
    → step_at s.step_order steps ≡ some s
step_at-mem {s} h (Memᴰ.head e) = rw (← e) (ground arith)
step_at-mem {s} h (Memᴰ.tail {x} m) =
    let later = AllAfter-mem h.0 m in let ih = step_at-mem h.1 m in ground arith

-- With no step after `order`, all steps stand at `order` or before.
pub step_after-none :
    (order : ℕ) {s : PublishApprovalStep} {steps : List PublishApprovalStep}
    → step_after order steps ≡ none
    → Memᴰ s steps
    → s.step_order ≤ order
step_after-none order {s} h (Memᴰ.head {x} e) =
    let k : x.step_order ≤ order = ground arith in rw e k
step_after-none order h (Memᴰ.tail {x} {xs} m) =
    let k : step_after order xs ≡ none = ground arith in step_after-none order k m

-- All steps before the one that follows `order` stand at `order` or before.
pub step_after-some :
    (order : ℕ) {s later : PublishApprovalStep} {steps : List PublishApprovalStep}
    → IsOrdered steps
    → step_after order steps ≡ some later
    → Memᴰ s steps
    → s.step_order < later.step_order
    → s.step_order ≤ order
step_after-some order {s} {later} h f (Memᴰ.head {x} e) lt =
    elim (Bool-cases (ltb order x.step_order)) [
      | inl b ↦
          let same : x ≡ later = ground arith in
          let eq : s.step_order ≡ later.step_order =
            ap (λ (t : PublishApprovalStep). t.step_order) (e ∙ same) in
          absurd (omega arith)
      | inr b ↦ let k : x.step_order ≤ order = ground arith in rw e k
    ]
step_after-some order {s} {later} h f (Memᴰ.tail {x} {xs} m) lt =
    elim (Bool-cases (ltb order x.step_order)) [
      | inl b ↦
          let same : x ≡ later = ground arith in
          let eq : x.step_order ≡ later.step_order =
            ap (λ (t : PublishApprovalStep). t.step_order) same in
          absurd (omega (arith, AllAfter-mem h.0 m))
      | inr b ↦
          let k : step_after order xs ≡ some later = ground arith in
          step_after-some order h.1 k m lt
    ]

-- No step stands before the first.
pub first_step_order-le :
    {s : PublishApprovalStep} {steps : List PublishApprovalStep}
    → IsOrdered steps
    → Memᴰ s steps
    → first_step_order steps ≤ s.step_order
first_step_order-le h (Memᴰ.head e) = rw e (omega arith)
first_step_order-le h (Memᴰ.tail m) = omega (arith, AllAfter-mem h.0 m)

-- How many approvals of a step are by one user.
abbrev pub approvals_by : ℕ → String → List Approval → ℕ
approvals_by order user_id approvals = length (select (is_by order user_id) approvals)

pub count-push {ℓ} :
    {A : Type ℓ} (p : A → Bool) (xs : List A) (a : A)
    → length (select p (xs ++ a ∷ [])) ≡ length (select p xs) + (if p a then 1 else 0)
count-push p [] a = ground arith
count-push p (x ∷ xs) a = ground (arith, count-push p xs a)

pub count_of_not_any {ℓ} :
    {A : Type ℓ} (p : A → Bool) (xs : List A) → any p xs ≡ false → length (select p xs) ≡ 0
count_of_not_any p [] h = refl
count_of_not_any p (x ∷ xs) h = ground (arith, count_of_not_any p xs)
