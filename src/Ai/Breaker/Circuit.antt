-- ===== src/Ai/Breaker/Circuit.antt =====
-- When the circuit of src/services/ai-resilience.ts is open.
use text.Mathlib.TextEquality.{eq_iff}
use webappv.Common.{
  ℕ, String, ◌≡◌, ap, ◌∙◌, false, ◌≢◌, ◌↔◌, ◌+◌, ◌≤◌, ◌<◌, true, some, List, [], ◌∷◌, arith,
  if◌then◌else◌, leb, ltb, string_equality, length, Bool-cases, inl, inr,
}
use webappv.Ai.Breaker.{
  CircuitState, Breakers, put, closed, or_closed, state_for, is_circuit_open, record_success,
  failed_state, record_failure,
}

module _ (key : String) (threshold cooldown_ms : ℕ) where
  -- Failures one after another, at the times given.
  pub fail_at : List ℕ → Breakers → Breakers
  fail_at [] breakers = breakers
  fail_at (now ∷ times) breakers =
      fail_at times (record_failure now key threshold cooldown_ms breakers).0

  -- the last of some times
  abbrev pub last : ℕ → List ℕ → ℕ
  last now [] = now
  last now (later ∷ times) = last later times

  put_self : (state : CircuitState) (b : Breakers) → put key state b key ≡ some state
  put_self state b = ground (arith, eq_iff key key)

  abbrev opened : CircuitState → ℕ → List ℕ → CircuitState
  opened state now times = record {
    failures = state.failures + (1 + length times);
    open_until =
        if leb threshold (state.failures + (1 + length times))
        then last now times + cooldown_ms
        else state.open_until;
  }

  opened-failed :
      (now later : ℕ) (times : List ℕ) (state : CircuitState)
      → opened (failed_state now threshold cooldown_ms state) later times
        ≡ opened state now (later ∷ times)
  opened-failed now later times state = ground arith

  fail_at-state :
      (now : ℕ) (times : List ℕ) (b : Breakers) (state : CircuitState)
      → or_closed (b key) ≡ state
      → fail_at (now ∷ times) b key ≡ some (opened state now times)
  unfolding fail_at record_failure
  fail_at-state now [] b state e =
      put_self _ b ∙ ap (λ s. some (failed_state now threshold cooldown_ms s)) e
  fail_at-state now (later ∷ times) b state e =
      let first = failed_state now threshold cooldown_ms (or_closed (b key)) in
      let ih =
        fail_at-state later times (put key first b) first (ap or_closed (put_self first b)) in
      ih
      ∙ ap some (opened-failed now later times (or_closed (b key)))
      ∙ ap (λ s. some (opened s now (later ∷ times))) e

  -- The state of a key that is there.
  is_open_at :
      (at_time : ℕ) (b : Breakers) (state : CircuitState)
      → b key ≡ some state
      → (is_circuit_open at_time key b).1 ≡ ltb at_time state.open_until
  unfolding is_circuit_open state_for
  is_open_at at_time b state e = rw (e, is_circuit_open, state_for)

  -- After a success, or before anything, a run of failures opens the circuit exactly if there are
  -- as many as the threshold, and until the cooldown after the last one has passed.
  pub failures-is_circuit_open :
      (now : ℕ) (times : List ℕ) (at_time : ℕ) (b : Breakers)
      → or_closed (b key) ≡ closed
      → ((is_circuit_open at_time key (fail_at (now ∷ times) b)).1 ≡ true)
        ↔ ((threshold ≤ 1 + length times) × (at_time < last now times + cooldown_ms))
  failures-is_circuit_open now times at_time b e =
      let opens =
        is_open_at at_time (fail_at (now ∷ times) b) (opened closed now times)
          (fail_at-state now times b closed e) in
      rw opens (ground arith)

  -- A success closes the circuit and clears its count, so that the failures before it do not count
  -- any more; it leaves the other circuits as they are.
  record_success_resets :
      (b : Breakers) (now : ℕ) (times : List ℕ) (at_time : ℕ)
      → (1 + length times < threshold)
      → ((is_circuit_open at_time key (fail_at (now ∷ times) (record_success key b))).1 ≡ false)
        × ((other : String) → key ≢ other → record_success key b other ≡ b other)
  unfolding record_success
  record_success_resets b now times at_time few =
      (still_closed, λ other n. ground (arith, eq_iff key other))
    where
      still_closed :
          (is_circuit_open at_time key (fail_at (now ∷ times) (record_success key b))).1 ≡ false
      still_closed =
          let opens =
            failures-is_circuit_open now times at_time (record_success key b)
              (ap or_closed (put_self closed b)) in
          elim (Bool-cases
            (is_circuit_open at_time key (fail_at (now ∷ times) (record_success key b))).1) [
              | inl e ↦ absurd (omega (arith, (opens.0 e).0, few))
              | inr e ↦ e
            ]
