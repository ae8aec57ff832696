-- ===== src/Ai/Breaker.antt =====
-- src/services/ai-resilience.ts: `FailoverAIClient` and its circuit breaker, without Redis
-- (`REDIS_URL` not set). `breakerState` is a function from the key. The providers' answers are
-- arguments, one for each attempt at the primary, and so are the clock at each attempt and the
-- regular expressions of `isTransientProviderError`.
pub mod Circuit
pub mod Calls
use webappv.Common.{
  ℕ, zero, suc, String, ◌+◌, max, Bool, true, false, ◌&&◌, Option, none, some, List, [], ◌∷◌,
  if◌then◌else◌, ltb, leb, ◌==◌, string_equality, Result, ok, throw,
}

pub record CircuitState : Type 0 where
  pub failures : ℕ
  pub open_until : ℕ

abbrev pub Breakers : Type 0
Breakers = String → Option CircuitState

abbrev pub put : String → CircuitState → Breakers → Breakers
put key state breakers k = if key == k then some state else breakers k

abbrev pub closed : CircuitState
closed = record { failures = 0; open_until = 0 }

-- `breakerState.get(key) ?? { failures: 0, openUntil: 0 }`
abbrev pub or_closed : Option CircuitState → CircuitState
or_closed none = closed
or_closed (some state) = state

-- The state of a key; one that is missing is created.
unfoldable pub state_for : String → Breakers → Breakers × CircuitState
state_for key breakers = elim (breakers key) [
  | none ↦ (put key closed breakers, closed)
  | some existing ↦ (breakers, existing)
]

unfoldable pub is_circuit_open : ℕ → String → Breakers → Breakers × Bool
is_circuit_open now key breakers =
    let (breakers', state) = state_for key breakers in (breakers', ltb now state.open_until)

unfoldable pub record_success : String → Breakers → Breakers
record_success key breakers = put key closed breakers

-- a failure in a state, with the threshold and the cooldown
abbrev pub failed_state : ℕ → ℕ → ℕ → CircuitState → CircuitState
failed_state now threshold cooldown_ms state = record {
  failures = state.failures + 1;
  open_until = if leb threshold (state.failures + 1) then now + cooldown_ms else state.open_until;
}

unfoldable pub record_failure : ℕ → String → ℕ → ℕ → Breakers → Breakers × ℕ
record_failure now key threshold cooldown_ms breakers =
    let state = failed_state now threshold cooldown_ms (or_closed (breakers key)) in
    (put key state breakers, state.failures)

pub record Options : Type 0 where
  pub circuit_key : String
  pub failure_threshold : ℕ
  pub cooldown_ms : ℕ
  pub max_attempts : ℕ

abbrev or_default : Option ℕ → ℕ → ℕ
or_default none default = default
or_default (some n) default = n

-- the constructor's options, from those given
unfoldable pub options_of : String → Option ℕ → Option ℕ → Option ℕ → Options
options_of circuit_key failure_threshold cooldown_ms max_attempts = record {
  circuit_key = circuit_key;
  failure_threshold = max 1 (or_default failure_threshold 3);
  cooldown_ms = max 5_000 (or_default cooldown_ms 60_000);
  max_attempts = max 1 (or_default max_attempts 2);
}

pub data Provider : Type 0 where
  primary secondary : Provider

-- The breakers left, the providers called in order, and the result.
pub record Outcome (A : Type 0) : Type 0 where
  pub breakers : Breakers
  pub calls : List Provider
  pub result : Result A

abbrev pub is_some : {A : Type 0} → Option A → Bool
is_some none = false
is_some (some a) = true

-- `shouldSkipPrimary && this.fallback`, and the loop otherwise
abbrev pub route : {A : Type 0} → Option (Result A) → Bool → Breakers → Outcome A → Outcome A
route none skip breakers looped = looped
route (some answered) skip breakers looped =
    if skip
    then record { breakers = breakers; calls = secondary ∷ []; result = answered }
    else looped

module _ {A : Type 0} (options : Options) (is_transient : String → Bool) (clock : ℕ → ℕ)
    (answer : ℕ → Result A) (fallback : Option (Result A)) where
  -- the `catch` clause behind `recordFailure`; `retry` is the rest of the loop
  unfoldable pub after_failure : ℕ → ℕ → String → Breakers → Outcome A → Outcome A
  after_failure most attempt message breakers retry = elim fallback [
    | none ↦
        if is_transient message && ltb attempt most
        then record retry { calls = primary ∷ retry.calls }
        else record { breakers = breakers; calls = primary ∷ []; result = throw message }
    | some answered ↦
        if is_transient message
        then record { breakers = breakers; calls = primary ∷ secondary ∷ []; result = answered }
        else record { breakers = breakers; calls = primary ∷ []; result = throw message }
  ]

  -- the loop from `attempt` on, with the number of attempts left
  unfoldable pub attempts : ℕ → ℕ → ℕ → Breakers → Outcome A
  attempts most zero attempt breakers = record {
    breakers = breakers;
    calls = [];
    result = throw "AI provider failure";
  }
  attempts most (suc left) attempt breakers =
      let after =
        (record_failure (clock attempt) options.circuit_key options.failure_threshold
          options.cooldown_ms breakers).0 in
      let retry = attempts most left (suc attempt) after in
      elim (answer attempt) [
        | ok result ↦ record {
          breakers = record_success options.circuit_key breakers;
          calls = primary ∷ [];
          result = ok result;
        }
        | throw message ↦ after_failure most attempt message after retry
      ]

  -- `this.fallback ? 1 : maxAttempts`
  abbrev pub max_primary_attempts : ℕ
  max_primary_attempts = if is_some fallback then 1 else options.max_attempts

  abbrev pub call_primary : Breakers → Outcome A
  call_primary breakers = attempts max_primary_attempts max_primary_attempts 1 breakers

  unfoldable pub chat_completion : ℕ → Breakers → Outcome A
  chat_completion now breakers =
      let (breakers', skip) = is_circuit_open now options.circuit_key breakers in
      route fallback skip breakers' (call_primary breakers')
