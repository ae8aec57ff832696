-- ===== src/Limits/Usage/Checks.antt =====
-- Which limits are watched by a threshold check (src/services/ai-usage-logic.ts).
use mathlib.Core.List.{append-nil}
use mathlib.Core.List.Memᴰ
use webappv.Common.{
  ℕ, ◌≡◌, refl, ◌↔◌, ◌⊎◌, inl, inr, ◌≤◌, ◌<◌, false, Option, none, some, List, [], ◌∷◌, ◌++◌, Memᴰ,
  zero, suc, ◌≢◌, sym, ◌∙◌, arith, nat_eq, Bool-cases,
}
use webappv.Limits.Usage.{
  UsageSummary, UsageLimits, LimitKind, daily_tokens, weekly_tokens, monthly_tokens, daily_requests,
  weekly_requests, monthly_requests, weekly_stories, monthly_stories, LimitCheck, Balance,
  evaluate_limit_status, check_of, build_limit_threshold_checks,
}
use webappv.Limits.Usage.Laws.{
  used, most, IsOf, not_below, first_reached_sound, evaluate_limit_status-allowed_iff,
}

single-mem : {c d : LimitCheck} → Memᴰ c (d ∷ []) → c ≡ d
single-mem (Memᴰ.head e) = e
single-mem (Memᴰ.tail m) = elim m [ ]

check_of-mem :
    (k : LimitKind) (o : Option ℕ) (n : ℕ) (c : LimitCheck)
    → Memᴰ c (check_of k o n)
      ↔ ((c.limit_type ≡ k) × (c.current ≡ n) × (o ≡ some c.max) × (0 < c.max))
check_of-mem k none n c = (λ m. elim m [ ], λ h. absurd (ground arith))
check_of-mem k (some zero) n c = (λ m. elim m [ ], λ h. absurd (ground arith))
check_of-mem k (some (suc m)) n c =
    rw (gt_zero m) (λ i. let e = single-mem i in ground arith, λ h. Memᴰ.head (ground arith))
  where
    gt_zero : (m : ℕ) → nat_eq (suc m) 0 ≡ false
    gt_zero m = ground arith

-- the checks of some kinds
abbrev gather : UsageSummary → UsageLimits → List LimitKind → List LimitCheck
gather u l [] = []
gather u l (k ∷ ks) = check_of k (most l k) (used u k) ++ gather u l ks

abbrev all_kinds : List LimitKind
all_kinds =
    daily_tokens ∷ weekly_tokens ∷ monthly_tokens ∷ daily_requests ∷ weekly_requests
    ∷ monthly_requests ∷ weekly_stories ∷ monthly_stories ∷ []

gather_all :
    (u : UsageSummary) (l : UsageLimits) → build_limit_threshold_checks u l ≡ gather u l all_kinds
unfolding build_limit_threshold_checks
gather_all u l = rw append-nil

all_kinds-mem : (k : LimitKind) → Memᴰ k all_kinds
all_kinds-mem daily_tokens = Memᴰ.head refl
all_kinds-mem weekly_tokens = Memᴰ.tail (Memᴰ.head refl)
all_kinds-mem monthly_tokens = Memᴰ.tail (Memᴰ.tail (Memᴰ.head refl))
all_kinds-mem daily_requests = Memᴰ.tail (Memᴰ.tail (Memᴰ.tail (Memᴰ.head refl)))
all_kinds-mem weekly_requests = Memᴰ.tail (Memᴰ.tail (Memᴰ.tail (Memᴰ.tail (Memᴰ.head refl))))
all_kinds-mem monthly_requests =
    Memᴰ.tail (Memᴰ.tail (Memᴰ.tail (Memᴰ.tail (Memᴰ.tail (Memᴰ.head refl)))))
all_kinds-mem weekly_stories =
    Memᴰ.tail (Memᴰ.tail (Memᴰ.tail (Memᴰ.tail (Memᴰ.tail (Memᴰ.tail (Memᴰ.head refl))))))
all_kinds-mem monthly_stories =
    Memᴰ.tail
      (Memᴰ.tail (Memᴰ.tail (Memᴰ.tail (Memᴰ.tail (Memᴰ.tail (Memᴰ.tail (Memᴰ.head refl)))))))

gather_sound :
    (u : UsageSummary) (l : UsageLimits) (ks : List LimitKind) (c : LimitCheck)
    → Memᴰ c (gather u l ks)
    → IsOf u l c × (0 < c.max)
gather_sound u l [] c m = elim m [ ]
gather_sound u l (k ∷ ks) c m = elim (Memᴰ.append_cases (check_of k (most l k) (used u k)) m) [
  | inl here ↦
      let (e, n, o, p) = (check_of-mem k _ _ c).0 here in
      (record { count = rw e n; limit = rw e o }, p)
  | inr later ↦ gather_sound u l ks c later
]

gather_complete :
    (u : UsageSummary) (l : UsageLimits) (ks : List LimitKind) (c : LimitCheck)
    → Memᴰ c.limit_type ks
    → IsOf u l c
    → 0 < c.max
    → Memᴰ c (gather u l ks)
gather_complete u l [] c m i p = elim m [ ]
gather_complete u l (k ∷ ks) c (Memᴰ.head e) i p =
    Memᴰ.append_left (gather u l ks)
      ((check_of-mem k (most l k) (used u k) c).1 (e, rw (← e) i.count, rw (← e) i.limit, p))
gather_complete u l (k ∷ ks) c (Memᴰ.tail m) i p =
    Memᴰ.append_right (check_of k (most l k) (used u k)) (gather_complete u l ks c m i p)

-- The threshold checks are those of the limits that are set and are not 0.
build_limit_threshold_checks-mem :
    (u : UsageSummary) (l : UsageLimits) (c : LimitCheck)
    → Memᴰ c (build_limit_threshold_checks u l) ↔ (IsOf u l c × (0 < c.max))
build_limit_threshold_checks-mem u l c = rw (gather_all u l) (
  gather_sound u l all_kinds c,
  λ h. gather_complete u l all_kinds c (all_kinds-mem c.limit_type) h.0 h.1,
)

-- A user who is stopped is stopped by a limit that is set and used up, which is watched by a
-- threshold check unless it is 0.
evaluate_limit_status_reason :
    (u : UsageSummary) (l : UsageLimits) (balance : Option Balance) (c : LimitCheck)
    → (evaluate_limit_status u l balance).reason ≡ some c
    → IsOf u l c × (c.max ≤ c.current) × ((c.max ≡ 0) ⊎ Memᴰ c (build_limit_threshold_checks u l))
unfolding evaluate_limit_status
evaluate_limit_status_reason u l balance c h =
    let (i, le) = first_reached_sound u l c h in
    (
      i,
      le,
      elim (Bool-cases (nat_eq c.max 0)) [
        | inl z ↦ inl (ground arith)
        | inr p ↦ inr ((build_limit_threshold_checks-mem u l c).1 (i, ground arith))
      ],
    )

-- A limit of 0 stops the user, and no threshold check watches it.
zero_limit_unwatched :
    (u : UsageSummary) (l : UsageLimits) (balance : Option Balance) (k : LimitKind)
    → most l k ≡ some 0
    → ((evaluate_limit_status u l balance).allowed ≡ false)
      × ((c : LimitCheck) → Memᴰ c (build_limit_threshold_checks u l) → c.limit_type ≢ k)
zero_limit_unwatched u l balance k z = (stopped, unwatched)
  where
    stopped : (evaluate_limit_status u l balance).allowed ≡ false
    stopped = elim (Bool-cases (evaluate_limit_status u l balance).allowed) [
      | inr e ↦ e
      | inl e ↦ absurd (not_below (rw z at ((evaluate_limit_status-allowed_iff u l balance).0 e k)))
    ]

    unwatched : (c : LimitCheck) → Memᴰ c (build_limit_threshold_checks u l) → c.limit_type ≢ k
    unwatched c m e =
        let (i, p) = (build_limit_threshold_checks-mem u l c).0 m in
        let same : some c.max ≡ some 0 = sym i.limit ∙ (rw e z) in ground arith
