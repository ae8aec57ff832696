-- ===== src/Limits/Usage/Laws.antt =====
-- When a user is let through, and which limits are watched (src/services/ai-usage-logic.ts).
use webappv.Common.{
  ℕ, ◌≡◌, refl, ◌↔◌, ◌⊎◌, inl, inr, ◌≤◌, ◌<◌, true, Option, none, some, List, [], ◌∷◌, sym, ◌∙◌,
  arith,
}
use webappv.Limits.Usage.{
  UsageSummary, UsageLimits, LimitKind, daily_tokens, weekly_tokens, monthly_tokens, daily_requests,
  weekly_requests, monthly_requests, weekly_stories, monthly_stories, LimitCheck, Balance,
  reason_of, or_else, first_reached, evaluate_limit_status,
}

-- The use that a kind of limit counts, and the limit set for it.
abbrev pub used : UsageSummary → LimitKind → ℕ
used u daily_tokens = u.daily_tokens
used u weekly_tokens = u.weekly_tokens
used u monthly_tokens = u.monthly_tokens
used u daily_requests = u.daily_requests
used u weekly_requests = u.weekly_requests
used u monthly_requests = u.monthly_requests
used u weekly_stories = u.weekly_stories
used u monthly_stories = u.monthly_stories

abbrev pub most : UsageLimits → LimitKind → Option ℕ
most l daily_tokens = l.max_tokens_per_day
most l weekly_tokens = l.max_tokens_per_week
most l monthly_tokens = l.max_tokens_per_month
most l daily_requests = l.max_requests_per_day
most l weekly_requests = l.max_requests_per_week
most l monthly_requests = l.max_requests_per_month
most l weekly_stories = l.max_stories_per_week
most l monthly_stories = l.max_stories_per_month

-- Not set, or above the use.
pub data IsBelow (n : ℕ) : Option ℕ → Type 0 where
  unset : IsBelow n none
  below : {m : ℕ} → n < m → IsBelow n (some m)

-- A check that says what is used of a limit that is set.
pub record IsOf (u : UsageSummary) (l : UsageLimits) (c : LimitCheck) : Type 0 where
  pub count : c.current ≡ used u c.limit_type
  pub limit : most l c.limit_type ≡ some c.max

pub not_below : {n : ℕ} → IsBelow n (some 0) → ⊥
not_below (below h) = elim h [ ]

reason-IsBelow : (k : LimitKind) (o : Option ℕ) (n : ℕ) → (reason_of k o n ≡ none) ↔ IsBelow n o
reason-IsBelow k none n = (λ _. unset, λ _. refl)
reason-IsBelow k (some m) n = (λ h. below (ground arith), elim [ below h ↦ ground arith ])

reason_is :
    (k : LimitKind) (o : Option ℕ) (n : ℕ) (c : LimitCheck)
    → reason_of k o n ≡ some c
    → (c.limit_type ≡ k) × (c.current ≡ n) × (o ≡ some c.max) × (c.max ≤ c.current)
reason_is k none n c h = cc
reason_is k (some m) n c h = ground arith

or_else-none : (a b : Option LimitCheck) → (or_else a b ≡ none) ↔ ((a ≡ none) × (b ≡ none))
or_else-none none b = ground arith
or_else-none (some c) b = ground arith

first_below :
    (u : UsageSummary) (l : UsageLimits)
    → first_reached u l ≡ none
    → (k : LimitKind) → reason_of k (most l k) (used u k) ≡ none
unfolding first_reached
first_below u l h daily_tokens = ground arith
first_below u l h _ = ground arith

below_first :
    (u : UsageSummary) (l : UsageLimits)
    → ((k : LimitKind) → reason_of k (most l k) (used u k) ≡ none)
    → first_reached u l ≡ none
unfolding first_reached
below_first u l h = rw (
  h daily_tokens,
  h weekly_tokens,
  h monthly_tokens,
  h daily_requests,
  h weekly_requests,
  h monthly_requests,
  h weekly_stories,
  h monthly_stories,
)

-- A user is let through exactly while the use is below every limit that is set.
pub evaluate_limit_status-allowed_iff :
    (u : UsageSummary) (l : UsageLimits) (balance : Option Balance)
    → ((evaluate_limit_status u l balance).allowed ≡ true)
      ↔ ((k : LimitKind) → IsBelow (used u k) (most l k))
unfolding evaluate_limit_status
evaluate_limit_status-allowed_iff u l balance = (
  λ h k. (reason-IsBelow k _ _).0 (first_below u l (ground arith) k),
  λ h. rw (below_first u l (λ k. (reason-IsBelow k _ _).1 (h k))),
)

-- the first reason in an order of the kinds
abbrev first_of : UsageSummary → UsageLimits → List LimitKind → Option LimitCheck
first_of u l [] = none
first_of u l (k ∷ ks) = or_else (reason_of k (most l k) (used u k)) (first_of u l ks)

or_else-none_right : (o : Option LimitCheck) → or_else o none ≡ o
or_else-none_right none = refl
or_else-none_right (some c) = refl

abbrev order_of_tests : List LimitKind
order_of_tests =
    weekly_tokens ∷ daily_tokens ∷ monthly_tokens ∷ weekly_requests ∷ daily_requests
    ∷ monthly_requests ∷ weekly_stories ∷ monthly_stories ∷ []

first_of_order :
    (u : UsageSummary) (l : UsageLimits) → first_reached u l ≡ first_of u l order_of_tests
unfolding first_reached
first_of_order u l =
    rw (or_else-none_right (reason_of monthly_stories l.max_stories_per_month u.monthly_stories))

or_else-some :
    (a b : Option LimitCheck) (c : LimitCheck) → or_else a b ≡ some c → (a ≡ some c) ⊎ (b ≡ some c)
or_else-some none b c h = inr h
or_else-some (some d) b c h = inl h

first_of_sound :
    (u : UsageSummary) (l : UsageLimits) (ks : List LimitKind) (c : LimitCheck)
    → first_of u l ks ≡ some c
    → IsOf u l c × (c.max ≤ c.current)
first_of_sound u l [] c h = absurd (ground arith)
first_of_sound u l (k ∷ ks) c h = elim (or_else-some (reason_of k (most l k) (used u k)) _ c h) [
  | inr later ↦ first_of_sound u l ks c later
  | inl here ↦
      let (e, n, o, le) = reason_is k (most l k) (used u k) c here in
      (record { count = rw e n; limit = rw e o }, le)
]

pub first_reached_sound :
    (u : UsageSummary) (l : UsageLimits) (c : LimitCheck)
    → first_reached u l ≡ some c
    → IsOf u l c × (c.max ≤ c.current)
first_reached_sound u l c h = first_of_sound u l order_of_tests c (sym (first_of_order u l) ∙ h)
