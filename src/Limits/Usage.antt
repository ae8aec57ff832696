-- ===== src/Limits/Usage.antt =====
-- src/services/ai-usage-logic.ts: a user's AI usage against the limits set.
-- The text of a reason is the kind of limit with its two numbers. A limit that is absent, null or
-- undefined, is `none`. The calendar of `getUtcUsageWindow` and the message texts are left out.
pub mod Laws
pub mod Checks
use webappv.Common.{
  ℕ, String, Bool, true, false, Option, none, some, List, [], ◌∷◌, ◌++◌, if◌then◌else◌, leb, nat_eq,
}

pub record UsageSummary : Type 0 where
  pub daily_tokens : ℕ
  pub weekly_tokens : ℕ
  pub monthly_tokens : ℕ
  pub daily_requests : ℕ
  pub weekly_requests : ℕ
  pub monthly_requests : ℕ
  pub weekly_stories : ℕ
  pub monthly_stories : ℕ

-- `AIUsageLimitLike`, and the limits that `buildUsageLimits` gives
pub record UsageLimits : Type 0 where
  pub max_tokens_per_week : Option ℕ
  pub max_tokens_per_day : Option ℕ
  pub max_tokens_per_month : Option ℕ
  pub max_requests_per_week : Option ℕ
  pub max_requests_per_day : Option ℕ
  pub max_requests_per_month : Option ℕ
  pub max_stories_per_week : Option ℕ
  pub max_stories_per_month : Option ℕ

-- the kinds of limit, by the `limitType` of a threshold check
pub data LimitKind : Type 0 where
  daily_tokens weekly_tokens monthly_tokens daily_requests weekly_requests : LimitKind
  monthly_requests weekly_stories monthly_stories : LimitKind

-- `LimitThresholdCheck`, which is also what a reason says
pub record LimitCheck : Type 0 where
  pub limit_type : LimitKind
  pub current : ℕ
  pub max : ℕ

pub record Balance : Type 0 where
  pub balance_cents : ℕ
  pub lifetime_spent_cents : ℕ

pub record LimitStatus : Type 0 where
  pub allowed : Bool
  pub reason : Option LimitCheck
  pub usage : UsageSummary
  pub limits : UsageLimits
  pub balance : Option Balance

unfoldable pub build_usage_limits : Option UsageLimits → UsageLimits
build_usage_limits none = record {
  max_tokens_per_week = none;
  max_tokens_per_day = none;
  max_tokens_per_month = none;
  max_requests_per_week = none;
  max_requests_per_day = none;
  max_requests_per_month = none;
  max_stories_per_week = none;
  max_stories_per_month = none;
}
build_usage_limits (some limit) = limit

-- one `if` of `evaluateLimitStatus`, `limit !== null && used >= limit`: the reason it gives, if any
abbrev pub reason_of : LimitKind → Option ℕ → ℕ → Option LimitCheck
reason_of kind none used = none
reason_of kind (some most) used =
    if leb most used then some (record { limit_type = kind; current = used; max = most }) else none

abbrev pub or_else : Option LimitCheck → Option LimitCheck → Option LimitCheck
or_else none next = next
or_else (some check) next = some check

-- the first limit that is reached, in the order of the tests
unfoldable pub first_reached : UsageSummary → UsageLimits → Option LimitCheck
first_reached usage limits =
    or_else (reason_of weekly_tokens limits.max_tokens_per_week usage.weekly_tokens) (
      or_else (reason_of daily_tokens limits.max_tokens_per_day usage.daily_tokens) (
        or_else (reason_of monthly_tokens limits.max_tokens_per_month usage.monthly_tokens) (
          or_else (reason_of weekly_requests limits.max_requests_per_week usage.weekly_requests) (
            or_else (reason_of daily_requests limits.max_requests_per_day usage.daily_requests) (
              or_else
                (reason_of monthly_requests limits.max_requests_per_month usage.monthly_requests)
                (or_else (reason_of weekly_stories limits.max_stories_per_week usage.weekly_stories)
                  (reason_of monthly_stories limits.max_stories_per_month
                    usage.monthly_stories)))))))

abbrev pub is_none : Option LimitCheck → Bool
is_none none = true
is_none (some check) = false

unfoldable pub evaluate_limit_status : UsageSummary → UsageLimits → Option Balance → LimitStatus
evaluate_limit_status usage limits balance = record {
  allowed = is_none (first_reached usage limits);
  reason = first_reached usage limits;
  usage = usage;
  limits = limits;
  balance = balance;
}

-- one `if (limit.max…)` of `buildLimitThresholdChecks`: a limit of 0 is falsy
abbrev pub check_of : LimitKind → Option ℕ → ℕ → List LimitCheck
check_of kind none used = []
check_of kind (some most) used =
    if nat_eq most 0 then [] else record { limit_type = kind; current = used; max = most } ∷ []

unfoldable pub build_limit_threshold_checks : UsageSummary → UsageLimits → List LimitCheck
build_limit_threshold_checks usage limit =
    check_of daily_tokens limit.max_tokens_per_day usage.daily_tokens
    ++ (check_of weekly_tokens limit.max_tokens_per_week usage.weekly_tokens
        ++ (check_of monthly_tokens limit.max_tokens_per_month usage.monthly_tokens
            ++ (check_of daily_requests limit.max_requests_per_day usage.daily_requests
                ++ (check_of weekly_requests limit.max_requests_per_week usage.weekly_requests
                    ++ (check_of monthly_requests limit.max_requests_per_month
                          usage.monthly_requests
                        ++ (check_of weekly_stories limit.max_stories_per_week usage.weekly_stories
                            ++ check_of monthly_stories limit.max_stories_per_month
                                usage.monthly_stories))))))
