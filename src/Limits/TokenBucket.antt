-- ===== src/Limits/TokenBucket.antt =====
-- src/services/rate-limiter.ts: requests and tokens per minute for outgoing AI calls.
-- `now` is `Date.now()`, read once in each step. A promise that is resolved is the number of its
-- caller in the list that a step returns; the timer is the time at which it is due.
pub mod Laws
pub mod Fairness
use webappv.Common.{
  ℕ, ◌+◌, ◌-◌, ◌/◌, min, Bool, true, false, ◌&&◌, Option, none, some, List, [], ◌∷◌, ◌++◌,
  if◌then◌else◌, ltb, leb,
}

pub record PendingRequest : Type 0 where
  pub estimated_tokens : ℕ
  pub caller : ℕ

pub record RateLimiter : Type 0 where
  pub max_rpm : ℕ
  pub max_tpm : ℕ
  pub requests_this_window : ℕ
  pub tokens_this_window : ℕ
  pub window_start_ms : ℕ
  pub queue : List PendingRequest
  pub drain_scheduled : Bool
  pub timer : Option ℕ

abbrev pub window_ms : ℕ
window_ms = 60_000

unfoldable pub new : ℕ → ℕ → ℕ → RateLimiter
new max_rpm max_tpm now = record {
  max_rpm = max_rpm;
  max_tpm = max_tpm;
  requests_this_window = 0;
  tokens_this_window = 0;
  window_start_ms = now;
  queue = [];
  drain_scheduled = false;
  timer = none;
}

-- `Math.ceil(text.length / 4)`, of the text's length
unfoldable pub estimate_tokens : ℕ → ℕ
estimate_tokens text_length = (text_length + 3) / 4

-- An `elapsed` below 0, where the clock was set back, counts as 0: it is below the window too.
unfoldable pub maybe_reset_window : ℕ → RateLimiter → RateLimiter
maybe_reset_window now l =
    if leb window_ms (now - l.window_start_ms)
    then record l { requests_this_window = 0; tokens_this_window = 0; window_start_ms = now }
    else l

abbrev pub can_proceed : RateLimiter → ℕ → Bool
can_proceed l estimated_tokens =
    ltb l.requests_this_window l.max_rpm && leb (l.tokens_this_window + estimated_tokens) l.max_tpm

abbrev pub consume : ℕ → RateLimiter → RateLimiter
consume estimated_tokens l = record l {
  requests_this_window = l.requests_this_window + 1;
  tokens_this_window = l.tokens_this_window + estimated_tokens;
}

-- 500 ms, or 50 ms after the window's end if that is sooner
unfoldable pub drain_delay : ℕ → ℕ → ℕ
drain_delay now start = min 500 ((window_ms - (now - start)) + 50)

unfoldable pub schedule_drain : ℕ → RateLimiter → RateLimiter
schedule_drain now l =
    if l.drain_scheduled
    then l
    else record l { drain_scheduled = true; timer = some (now + drain_delay now l.window_start_ms) }

unfoldable pub acquire : ℕ → PendingRequest → RateLimiter → RateLimiter × List ℕ
acquire now request l =
    let l' = maybe_reset_window now l in
    if can_proceed l' request.estimated_tokens
    then (consume request.estimated_tokens l', request.caller ∷ [])
    else (schedule_drain now (record l' { queue = l'.queue ++ request ∷ [] }), [])

unfoldable pub report_usage : ℕ → ℕ → RateLimiter → RateLimiter
report_usage actual_tokens estimated_tokens l =
    if ltb estimated_tokens actual_tokens
    then record l { tokens_this_window = l.tokens_this_window + (actual_tokens - estimated_tokens) }
    else l

-- the loop of `drain`, over the queue
unfoldable pub drain_queue : ℕ → List PendingRequest → RateLimiter → RateLimiter × List ℕ
drain_queue now [] l = (record l { queue = [] }, [])
drain_queue now (next ∷ rest) l =
    let (l', released) = drain_queue now rest (consume next.estimated_tokens l) in
    if can_proceed l next.estimated_tokens
    then (l', next.caller ∷ released)
    else (schedule_drain now (record l { queue = next ∷ rest }), [])

unfoldable pub drain : ℕ → RateLimiter → RateLimiter × List ℕ
drain now l = let l' = maybe_reset_window now l in drain_queue now l'.queue l'

-- the callback of `setTimeout`
unfoldable pub timer_fires : ℕ → RateLimiter → RateLimiter × List ℕ
timer_fires now l = drain now (record l { drain_scheduled = false; timer = none })

-- What can happen to a limiter: a caller, a report, and the timer.
pub data Event : Type 0 where
  called : PendingRequest → Event
  reported : (actual_tokens estimated_tokens : ℕ) → Event
  fired : Event

unfoldable pub step : ℕ → Event → RateLimiter → RateLimiter × List ℕ
step now (called request) l = acquire now request l
step now (reported actual estimated) l = (report_usage actual estimated l, [])
step now fired l = timer_fires now l

unfoldable pub run : List (ℕ × Event) → RateLimiter → RateLimiter × List ℕ
run [] l = (l, [])
run ((now, e) ∷ events) l =
    let (l', released) = step now e l in
    let (l'', later) = run events l' in (l'', released ++ later)
