-- ===== src/Limits/Tests.antt =====
-- The theorems on limits at concrete times, and runs of the limiters of
-- src/services/rate-limiter.ts and src/middleware/rate-limiter.ts.
use text.Mathlib.TextEquality.{eq_iff}
use webappv.Common.{
  ℕ, String, ◌≡◌, refl, inr, ◌≢◌, ◌+◌, ◌≤◌, min, true, Option, none, some, List, [], ◌∷◌,
  string_equality, arith,
}
use webappv.Limits.TokenBucket.{
  PendingRequest, RateLimiter, new, maybe_reset_window, schedule_drain, drain_delay, acquire,
  report_usage, drain_queue, drain, timer_fires, Event, called, reported, fired, step, run,
}
use webappv.Limits.TokenBucket.Laws.{IsValid, waiting, step-IsValid, step_tokens}
use webappv.Limits.TokenBucket.Fairness.{
  count, run_conserves, fired_releases_head, oversized_blocks,
}
use webappv.Limits.HttpWindow.{Store, password_rate_limiter}
use webappv.Limits.HttpWindow.Laws.{let_through, window_exact}
use webappv.Limits.HttpWindow.Cleanup.{
  StoreEvent, request, swept, without_sweeps, answers, cleanup_unseen,
}
use webappv.Limits.Usage.{
  UsageSummary, UsageLimits, LimitKind, monthly_stories, daily_tokens, weekly_tokens,
  monthly_tokens, daily_requests, weekly_requests, monthly_requests, weekly_stories, LimitCheck,
  evaluate_limit_status,
}
use webappv.Limits.Usage.Laws.{used, most, IsBelow, unset, below, evaluate_limit_status-allowed_iff}

-- Two requests and 100 tokens a minute; three callers, the last after the minute.
abbrev limiter : RateLimiter
limiter = new 2 100 0

abbrev call : ℕ → ℕ → Event
call caller tokens = called (record { estimated_tokens = tokens; caller = caller })

abbrev events : List (ℕ × Event)
events =
    (10, call 1 60)
    ∷ (20, call 2 60)
    ∷ (30, reported 80 60)
    ∷ (520, fired)
    ∷ (60_050, fired)
    ∷ (60_060, call 3 30)
    ∷ []

released : (run events limiter).1 ≡ 1 ∷ 2 ∷ 3 ∷ []
unfolding run step acquire report_usage timer_fires drain drain_queue maybe_reset_window
    schedule_drain drain_delay new
released = refl

run_conserves_example :
    count 2 (run events limiter).1 + count 2 (waiting (run events limiter).0) ≡ 0 + 1
unfolding new
run_conserves_example = run_conserves 2 events limiter

abbrev blocked : RateLimiter
blocked = record {
  max_rpm = 2;
  max_tpm = 100;
  requests_this_window = 1;
  tokens_this_window = 60;
  window_start_ms = 0;
  queue = record { estimated_tokens = 60; caller = 2 } ∷ [];
  drain_scheduled = true;
  timer = some 520;
}

blocked-IsValid : IsValid blocked
blocked-IsValid = record { within = omega arith; woken = inr refl; armed = λ e. refl }

step-IsValid_example : IsValid (step 520 fired blocked).0
step-IsValid_example = step-IsValid 520 fired blocked blocked-IsValid

step_tokens_example : (step 60_050 fired blocked).0.tokens_this_window ≤ 100
unfolding step timer_fires drain drain_queue maybe_reset_window schedule_drain drain_delay
step_tokens_example = step_tokens 60_050 fired blocked (λ e. cc e)

fired_releases_head_example : (more : List ℕ) × ((step 60_050 fired blocked).1 ≡ 2 ∷ more)
fired_releases_head_example =
    fired_releases_head 60_050 blocked (record { estimated_tokens = 60; caller = 2 }) [] refl
      (omega arith) (omega arith) (omega arith)

abbrev too_large : PendingRequest
too_large = record { estimated_tokens = 101; caller = 7 }

oversized_blocks_example :
    (more : List PendingRequest) × ((run events (record blocked { queue = too_large ∷ [] })).0.queue
      ≡ too_large ∷ more)
oversized_blocks_example =
    oversized_blocks events (record blocked { queue = too_large ∷ [] }) too_large [] refl
      (omega arith)

abbrev no_entries : Store
no_entries key = none

-- Seven attempts at a password in a minute: five get through.
abbrev attempts : List ℕ
attempts = 10 ∷ 20 ∷ 30 ∷ 40 ∷ 50 ∷ 60_000 ∷ []

window_exact_example :
    let_through password_rate_limiter "ip" (0 ∷ attempts) no_entries ≡ 1 + min 6 4
window_exact_example =
    window_exact password_rate_limiter "ip" 0 attempts no_entries refl
      (omega arith, (omega arith, (omega arith, (omega arith, (omega arith, (omega arith, tt))))))

ip_ne_other : ◌≢◌ {A = String} "ip" "other"
ip_ne_other = ground (arith, eq_iff "ip" "other")

abbrev traffic : List (ℕ × StoreEvent)
traffic = (5, request "ip") ∷ (70_000, swept) ∷ (70_001, request "ip") ∷ []

cleanup_unseen_example :
    answers password_rate_limiter traffic no_entries
    ≡ answers password_rate_limiter (without_sweeps traffic) no_entries
cleanup_unseen_example =
    cleanup_unseen password_rate_limiter 0 traffic no_entries
      (omega arith, (omega arith, (omega arith, tt)))

abbrev usage : UsageSummary
usage = record {
  daily_tokens = 50;
  weekly_tokens = 70;
  monthly_tokens = 90;
  daily_requests = 1;
  weekly_requests = 2;
  monthly_requests = 3;
  weekly_stories = 0;
  monthly_stories = 4;
}

abbrev limits_of : Option ℕ → Option ℕ → UsageLimits
limits_of tokens stories = record {
  max_tokens_per_week = none;
  max_tokens_per_day = tokens;
  max_tokens_per_month = none;
  max_requests_per_week = none;
  max_requests_per_day = none;
  max_requests_per_month = none;
  max_stories_per_week = none;
  max_stories_per_month = stories;
}

all-IsBelow : (k : LimitKind) → IsBelow (used usage k) (most (limits_of (some 60) (some 5)) k)
all-IsBelow daily_tokens = below (omega arith)
all-IsBelow monthly_stories = below (omega arith)
all-IsBelow weekly_tokens = unset
all-IsBelow monthly_tokens = unset
all-IsBelow daily_requests = unset
all-IsBelow weekly_requests = unset
all-IsBelow monthly_requests = unset
all-IsBelow weekly_stories = unset

evaluate_limit_status-allowed_iff_example :
    (evaluate_limit_status usage (limits_of (some 60) (some 5)) none).allowed ≡ true
evaluate_limit_status-allowed_iff_example =
    (evaluate_limit_status-allowed_iff usage (limits_of (some 60) (some 5)) none).1 all-IsBelow

abbrev stories_check : LimitCheck
stories_check = record { limit_type = monthly_stories; current = 4; max = 3 }
