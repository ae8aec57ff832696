-- ===== src/Limits/TokenBucket/Laws.antt =====
-- What every step of the limiter of src/services/rate-limiter.ts keeps.
use webappv.Common.{
  ℕ, ◌≡◌, refl, ◌≢◌, ◌≤◌, Bool, true, false, Option, none, some, List, [], ◌∷◌, ◌++◌, map, arith,
  Bool-cases, inl, inr, ◌⊎◌,
}
use webappv.Limits.TokenBucket.{
  PendingRequest, RateLimiter, maybe_reset_window, can_proceed, consume, schedule_drain, acquire,
  report_usage, drain_queue, drain, timer_fires, Event, called, reported, fired, step,
}

abbrev is_set : Option ℕ → Bool
is_set none = false
is_set (some due) = true

-- No more requests than allowed in the window; callers wait only while a timer is set; and the flag
-- that keeps a second timer from being set is up only while there is one.
pub record IsValid (l : RateLimiter) : Type 0 where
  pub within : l.requests_this_window ≤ l.max_rpm
  pub woken : (l.queue ≡ []) ⊎ (is_set l.timer ≡ true)
  pub armed : l.drain_scheduled ≡ true → is_set l.timer ≡ true

drain_queue-IsValid :
    (now : ℕ) (waiting : List PendingRequest) (l : RateLimiter)
    → l.requests_this_window ≤ l.max_rpm
    → (l.drain_scheduled ≡ true → is_set l.timer ≡ true)
    → IsValid (drain_queue now waiting l).0
unfolding drain_queue schedule_drain
drain_queue-IsValid now [] l h k = record { within = h; woken = inl refl; armed = k }
drain_queue-IsValid now (p ∷ rest) l h k = elim (Bool-cases (can_proceed l p.estimated_tokens)) [
  | inl e ↦
      rw (e, drain_queue)
        (drain_queue-IsValid now rest (consume p.estimated_tokens l) (ground arith) k)
  | inr e ↦
      rw (e, drain_queue)
        (record { within = ground arith; woken = ground arith; armed = ground arith })
]

-- Every step, at any time, keeps the requests of the window within the limit, keeps a timer set
-- while callers wait, and keeps the flag of a scheduled drain up only while a timer is set.
pub step-IsValid : (now : ℕ) (e : Event) (l : RateLimiter) → IsValid l → IsValid (step now e l).0
unfolding step acquire report_usage timer_fires drain maybe_reset_window schedule_drain
step-IsValid now (called r) l v = record {
  within = ground arith;
  woken = ground arith;
  armed = ground arith;
}
step-IsValid now (reported a b) l v = ground arith
step-IsValid now fired l v = drain_queue-IsValid now _ _ (ground arith) (ground arith)

-- The callers that wait, in order.
abbrev pub waiting : RateLimiter → List ℕ
waiting l = map (λ p. p.caller) l.queue

-- A drain releases callers from the front of the queue and leaves the rest in order.
drain_queue_fifo :
    (now : ℕ) (queue : List PendingRequest) (l : RateLimiter)
    → (drain_queue now queue l).1 ++ waiting (drain_queue now queue l).0 ≡ map (λ p. p.caller) queue
unfolding drain_queue schedule_drain
drain_queue_fifo now [] l = refl
drain_queue_fifo now (p ∷ rest) l =
    ground (arith, drain_queue_fifo now rest (consume p.estimated_tokens l))

-- It stops only at a caller that cannot proceed.
drain_queue_stops :
    (now : ℕ) (queue : List PendingRequest) (l : RateLimiter) {p : PendingRequest}
    {rest : List PendingRequest}
    → (drain_queue now queue l).0.queue ≡ p ∷ rest
    → can_proceed (drain_queue now queue l).0 p.estimated_tokens ≡ false
unfolding drain_queue schedule_drain
drain_queue_stops now [] l h = cc
drain_queue_stops now (q ∷ queue) l h = elim (Bool-cases (can_proceed l q.estimated_tokens)) [
  | inl e ↦
      rw (e, drain_queue)
        (drain_queue_stops now queue (consume q.estimated_tokens l) (rw (e, drain_queue) at h))
  | inr e ↦ ground arith
]

drain_queue_tokens :
    (now : ℕ) (queue : List PendingRequest) (l : RateLimiter)
    → l.tokens_this_window ≤ l.max_tpm
    → (drain_queue now queue l).0.tokens_this_window ≤ l.max_tpm
unfolding drain_queue schedule_drain
drain_queue_tokens now [] l h = h
drain_queue_tokens now (p ∷ rest) l h = elim (Bool-cases (can_proceed l p.estimated_tokens)) [
  | inl e ↦
      rw (e, drain_queue)
        (drain_queue_tokens now rest (consume p.estimated_tokens l) (ground arith))
  | inr e ↦ ground arith
]

drain_queue_released :
    (now : ℕ) (queue : List PendingRequest) (l : RateLimiter)
    → ((drain_queue now queue l).1 ≡ [])
      ⊎ ((drain_queue now queue l).0.tokens_this_window ≤ l.max_tpm)
unfolding drain_queue schedule_drain
drain_queue_released now [] l = inl refl
drain_queue_released now (p ∷ rest) l = elim (Bool-cases (can_proceed l p.estimated_tokens)) [
  | inl e ↦ inr (
      rw (e, drain_queue)
        (drain_queue_tokens now rest (consume p.estimated_tokens l) (ground arith)))
  | inr e ↦ inl (rw (e, drain_queue))
]

-- A step that lets a caller through leaves the estimated tokens of the window within the limit;
-- so only reports of actual use can take them past it.
pub step_tokens :
    (now : ℕ) (e : Event) (l : RateLimiter)
    → (step now e l).1 ≢ []
    → (step now e l).0.tokens_this_window ≤ l.max_tpm
unfolding step acquire report_usage timer_fires drain maybe_reset_window schedule_drain
step_tokens now (called r) l h = ground arith
step_tokens now (reported a b) l h = ground arith
step_tokens now fired l h =
    let l' = maybe_reset_window now (record l { drain_scheduled = false; timer = none }) in
    let max : l'.max_tpm ≡ l.max_tpm = ground arith in
    elim (drain_queue_released now l'.queue l') [
      | inl none_released ↦ absurd (h none_released)
      | inr le ↦ omega arith
    ]
