-- ===== src/Limits/HttpWindow.antt =====
-- src/middleware/rate-limiter.ts: a fixed window of requests for each address.
-- The `Map` is a function from the address; `now` is `Date.now()`. The answer of Redis is an
-- argument: not there, an error, or a count with the key's time to live (a negative one as 0).
pub mod Laws
pub mod Cleanup
use webappv.Common.{
  ℕ, String, ◌+◌, ◌-◌, ◌/◌, max, Bool, true, false, Option, none, some, List, [], ◌∷◌,
  if◌then◌else◌, ltb, ◌==◌, string_equality,
}

pub record RateLimitEntry : Type 0 where
  pub count : ℕ
  pub reset_at : ℕ

pub record RateLimiterOptions : Type 0 where
  pub max_requests : ℕ
  pub window_ms : ℕ

abbrev pub Store : Type 0
Store = String → Option RateLimitEntry

abbrev pub set : String → RateLimitEntry → Store → Store
set key entry store k = if key == k then some entry else store k

pub data Response : Type 0 where
  next : Response
  -- 429, with `Retry-After` and `retry_after_seconds`
  too_many : (retry_after : ℕ) → Response

-- `Math.ceil(ms / 1000)`
abbrev pub seconds : ℕ → ℕ
seconds ms = (ms + 999) / 1000

abbrev pub ttl_seconds : RateLimiterOptions → ℕ
ttl_seconds options = max 1 (seconds options.window_ms)

-- `!entry || now > entry.resetAt`
abbrev pub is_over : ℕ → Option RateLimitEntry → Bool
is_over now none = true
is_over now (some entry) = ltb entry.reset_at now

-- the callback of `setInterval`
unfoldable pub cleanup : ℕ → Store → Store
cleanup now store key = if is_over now (store key) then none else store key

module _ (options : RateLimiterOptions) where
  -- from `entry.count++` on
  unfoldable pub count_request : ℕ → String → RateLimitEntry → Store → Store × Response
  count_request now ip entry store =
      let entry' = record entry { count = entry.count + 1 } in
      (
        set ip entry' store,
        if ltb options.max_requests (entry.count + 1)
            then too_many (seconds (entry.reset_at - now))
            else next,
      )

  unfoldable pub open_window : ℕ → String → Store → Store × Response
  open_window now ip store =
      (set ip (record { count = 1; reset_at = now + options.window_ms }) store, next)

  unfoldable pub check_entry : ℕ → String → Option RateLimitEntry → Store → Store × Response
  check_entry now ip none store = open_window now ip store
  check_entry now ip (some entry) store =
      if ltb entry.reset_at now then open_window now ip store else count_request now ip entry store

  unfoldable pub in_memory_check : ℕ → String → Store → Store × Response
  in_memory_check now ip store = check_entry now ip (store ip) store

pub data RedisAnswer : Type 0 where
  unavailable failed : RedisAnswer
  counted : (count ttl : ℕ) → RedisAnswer

module _ (options : RateLimiterOptions) where
  unfoldable pub limit_request : RedisAnswer → ℕ → String → Store → Store × Response
  limit_request unavailable now ip store = in_memory_check options now ip store
  limit_request failed now ip store = in_memory_check options now ip store
  limit_request (counted count ttl) now ip store = (
    store,
    if ltb options.max_requests count
        then too_many (if ltb 0 ttl then ttl else ttl_seconds options)
        else next,
  )

-- the limiters that the file exports
abbrev pub password_rate_limiter : RateLimiterOptions
password_rate_limiter = record { max_requests = 5; window_ms = 60_000 }

abbrev pub api_rate_limiter : RateLimiterOptions
api_rate_limiter = record { max_requests = 100; window_ms = 60_000 }

abbrev pub webhook_rate_limiter : RateLimiterOptions
webhook_rate_limiter = record { max_requests = 200; window_ms = 60_000 }

abbrev pub export_rate_limiter : RateLimiterOptions
export_rate_limiter = record { max_requests = 10; window_ms = 60_000 }
