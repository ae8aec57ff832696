-- ===== src/Limits/TokenBucket/Fairness.antt =====
-- Who gets through the limiter of src/services/rate-limiter.ts, and who waits.
use webappv.Common.{
  ℕ, ◌≡◌, refl, ◌+◌, ◌-◌, ◌≤◌, ◌<◌, false, none, List, [], ◌∷◌, ◌++◌, map, arith, if◌then◌else◌,
  nat_eq,
}
use webappv.Limits.TokenBucket.{
  PendingRequest, RateLimiter, window_ms, maybe_reset_window, can_proceed, consume, schedule_drain,
  acquire, report_usage, drain_queue, drain, timer_fires, Event, called, reported, fired, step, run,
}
use webappv.Limits.TokenBucket.Laws.{waiting}

-- how often a caller stands in a list
abbrev pub count : ℕ → List ℕ → ℕ
count c [] = 0
count c (x ∷ xs) = (if nat_eq x c then 1 else 0) + count c xs

count-append : (c : ℕ) (xs ys : List ℕ) → count c (xs ++ ys) ≡ count c xs + count c ys
count-append c [] ys = omega arith
count-append c (x ∷ xs) ys = omega (arith, count-append c xs ys)

-- the callers that an event, and a run of events, bring in
abbrev pub arrivals : Event → List ℕ
arrivals (called r) = r.caller ∷ []
arrivals (reported a b) = []
arrivals fired = []

abbrev pub all_arrivals : List (ℕ × Event) → List ℕ
all_arrivals [] = []
all_arrivals ((now, e) ∷ events) = arrivals e ++ all_arrivals events

drain_count :
    (c now : ℕ) (queue : List PendingRequest) (l : RateLimiter)
    → count c (drain_queue now queue l).1 + count c (waiting (drain_queue now queue l).0)
      ≡ count c (map (λ p. p.caller) queue)
unfolding drain_queue schedule_drain
drain_count c now [] l = refl
drain_count c now (p ∷ rest) l =
    ground (arith, drain_count c now rest (consume p.estimated_tokens l))

count-push :
    (c : ℕ) (xs : List PendingRequest) (r : PendingRequest)
    → count c (map (λ p. p.caller) (xs ++ r ∷ []))
      ≡ count c (map (λ p. p.caller) xs) + count c (r.caller ∷ [])
count-push c [] r = omega arith
count-push c (x ∷ xs) r = omega (arith, count-push c xs r)

step_conserves :
    (c now : ℕ) (e : Event) (l : RateLimiter)
    → count c (step now e l).1 + count c (waiting (step now e l).0)
      ≡ count c (waiting l) + count c (arrivals e)
unfolding step acquire report_usage timer_fires drain maybe_reset_window schedule_drain
step_conserves c now (called r) l = ground (arith, count-push c l.queue r)
step_conserves c now (reported a b) l = ground arith
step_conserves c now fired l =
    let l' = maybe_reset_window now (record l { drain_scheduled = false; timer = none }) in
    let same : l'.queue ≡ l.queue = ground arith in ground (arith, drain_count c now l'.queue l')

-- Over any run, each caller is let through or still waits, exactly as often as it waited at first
-- or came in: nobody is lost and nobody is let through twice.
pub run_conserves :
    (c : ℕ) (events : List (ℕ × Event)) (l : RateLimiter)
    → count c (run events l).1 + count c (waiting (run events l).0)
      ≡ count c (waiting l) + count c (all_arrivals events)
unfolding run
run_conserves c [] l = omega arith
run_conserves c ((now, e) ∷ events) l =
    let (l', released) = step now e l in
    let later = (run events l').1 in
    omega (
      arith,
      step_conserves c now e l,
      run_conserves c events l',
      count-append c released later,
      count-append c (arrivals e) (all_arrivals events),
    )

-- When the timer fires after the window's end, the caller at the head of the queue goes through,
-- if the limits admit such a request at all.
pub fired_releases_head :
    (now : ℕ) (l : RateLimiter) (p : PendingRequest) (rest : List PendingRequest)
    → l.queue ≡ p ∷ rest
    → window_ms ≤ now - l.window_start_ms
    → 0 < l.max_rpm
    → p.estimated_tokens ≤ l.max_tpm
    → (more : List ℕ) × ((step now fired l).1 ≡ p.caller ∷ more)
unfolding step timer_fires drain maybe_reset_window drain_queue
fired_releases_head now l p rest q w r t =
    let l' : RateLimiter = record l {
      requests_this_window = 0;
      tokens_this_window = 0;
      window_start_ms = now;
      drain_scheduled = false;
      timer = none;
    } in
    ((drain_queue now rest (consume p.estimated_tokens l')).1, ground arith)

step_blocked :
    (now : ℕ) (e : Event) (l : RateLimiter) (p : PendingRequest) (rest : List PendingRequest)
    → l.queue ≡ p ∷ rest
    → l.max_tpm < p.estimated_tokens
    → (more : List PendingRequest) × ((step now e l).0.queue ≡ p ∷ more)
      × ((step now e l).0.max_tpm ≡ l.max_tpm)
unfolding step acquire report_usage timer_fires drain maybe_reset_window schedule_drain drain_queue
step_blocked now (called r) l p rest q h = (
  if can_proceed (maybe_reset_window now l) r.estimated_tokens then rest else rest ++ r ∷ [],
  ground arith,
  ground arith,
)
step_blocked now (reported a b) l p rest q h = (rest, ground arith, ground arith)
step_blocked now fired l p rest q h = (rest, ground arith, ground arith)

-- A caller whose estimate is above the limit for a whole window blocks the queue: once at its head
-- it stays there, whatever happens and however long, and with it all callers behind it.
pub oversized_blocks :
    (events : List (ℕ × Event)) (l : RateLimiter) (p : PendingRequest) (rest : List PendingRequest)
    → l.queue ≡ p ∷ rest
    → l.max_tpm < p.estimated_tokens
    → (more : List PendingRequest) × ((run events l).0.queue ≡ p ∷ more)
unfolding run
oversized_blocks [] l p rest q h = (rest, q)
oversized_blocks ((now, e) ∷ events) l p rest q h =
    let (more, queue, same) = step_blocked now e l p rest q h in
    oversized_blocks events (step now e l).0 p more queue (omega arith)
