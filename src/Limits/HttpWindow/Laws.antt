-- ===== src/Limits/HttpWindow/Laws.antt =====
-- How many requests the limiter of src/middleware/rate-limiter.ts lets through, and why its
-- cleanup is not seen.
use text.Mathlib.TextEquality.{eq_iff}
use webappv.Common.{
  ℕ, String, ◌≡◌, refl, ◌≢◌, inl, inr, ◌+◌, ◌-◌, ◌≤◌, min, Bool, true, false, some, List, [], ◌∷◌,
  arith, if◌then◌else◌, ltb, string_equality, length, Bool-cases, Option-cases,
}
use webappv.Limits.HttpWindow.{
  RateLimitEntry, RateLimiterOptions, Store, set, Response, next, too_many, is_over, count_request,
  open_window, check_entry, in_memory_check, seconds,
}

-- Every time is in the window that ends at `reset_at`.
abbrev pub AllWithin : ℕ → List ℕ → Type 0
AllWithin reset_at [] = Unit
AllWithin reset_at (now ∷ times) = (now ≤ reset_at) × AllWithin reset_at times

abbrev pub passed : Response → ℕ
passed next = 1
passed (too_many retry_after) = 0

module _ (options : RateLimiterOptions) (ip : String) where
  -- How many of the requests from one address, at the times given, are let through.
  pub let_through : List ℕ → Store → ℕ
  let_through [] store = 0
  let_through (now ∷ times) store =
      let (store', response) = in_memory_check options now ip store in
      passed response + let_through times store'

  set_self : (e : RateLimitEntry) (store : Store) → set ip e store ip ≡ some e
  set_self e store = ground (arith, eq_iff ip ip)

  -- a request in an open window is counted
  pub check_open :
      (now : ℕ) (store : Store) (e : RateLimitEntry)
      → store ip ≡ some e
      → now ≤ e.reset_at
      → in_memory_check options now ip store ≡ count_request options now ip e store
  unfolding in_memory_check check_entry
  check_open now store e found h =
      let still : ltb e.reset_at now ≡ false = ground arith in
      rw (found, in_memory_check) (rw still)

  -- a request with no window, or after its end, opens one
  pub check_over :
      (now : ℕ) (store : Store)
      → is_over now (store ip) ≡ true
      → in_memory_check options now ip store ≡ open_window options now ip store
  unfolding in_memory_check check_entry
  check_over now store over = elim (Option-cases (store ip)) [
    | inl e ↦ rw (e, in_memory_check)
    | inr (old, e) ↦
        let late : ltb old.reset_at now ≡ true = ground arith in rw (e, in_memory_check) (rw late)
  ]

  passed_if :
      (b : Bool) (wait : ℕ) → passed (if b then too_many wait else next) ≡ (if b then 0 else 1)
  passed_if true wait = refl
  passed_if false wait = refl

  counted :
      (times : List ℕ) (store : Store) (c reset_at : ℕ)
      → store ip ≡ some (record { count = c; reset_at = reset_at })
      → AllWithin reset_at times
      → let_through times store ≡ min (length times) (options.max_requests - c)
  unfolding let_through count_request
  counted [] store c t e h = omega arith
  counted (now ∷ times) store c t e (h, hs) =
      let entry : RateLimitEntry = record { count = c + 1; reset_at = t } in
      let ih = counted times (set ip entry store) (c + 1) t (set_self entry store) hs in
      let wait = seconds (t - now) in
      rw (check_open now store (record { count = c; reset_at = t }) e h)
        (ground (arith, ih, passed_if (ltb options.max_requests (c + 1)) wait))

  -- From a first request on, the limiter lets through that one and, up to the end of the window,
  -- as many more as complete `max_requests`, wherever in the window they fall.
  pub window_exact :
      (start : ℕ) (times : List ℕ) (store : Store)
      → is_over start (store ip) ≡ true
      → AllWithin (start + options.window_ms) times
      → let_through (start ∷ times) store ≡ 1 + min (length times) (options.max_requests - 1)
  unfolding let_through open_window
  window_exact start times store over h =
      let entry : RateLimitEntry = record { count = 1; reset_at = start + options.window_ms } in
      rw (
        check_over start store over,
        counted times (set ip entry store) 1 (start + options.window_ms) (set_self entry store) h,
      )

  -- A request from one address changes nothing for another.
  in_memory_check_other :
      (now : ℕ) (other : String) (store : Store)
      → ip ≢ other
      → (in_memory_check options now ip store).0 other ≡ store other
  unfolding in_memory_check check_entry open_window count_request
  in_memory_check_other now other store h = elim (Option-cases (store ip)) [
    | inl e ↦ rw (e, in_memory_check) (ground (arith, eq_iff ip other))
    | inr (old, e) ↦
        rw (e, in_memory_check)
          (elim (Bool-cases (ltb old.reset_at now)) [
            | inl b ↦ rw b (ground (arith, eq_iff ip other))
            | inr b ↦ rw b (ground (arith, eq_iff ip other))
          ])
  ]
