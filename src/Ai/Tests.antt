-- ===== src/Ai/Tests.antt =====
-- The theorems on src/services/ai-resilience.ts at concrete providers.
use webappv.Common.{
  ℕ, zero, suc, String, ◌≡◌, refl, ◌↔◌, ◌≤◌, ◌<◌, Bool, true, Option, none, some, [], ◌∷◌, arith,
  ◌==◌, string_equality, Result, ok, throw,
}
use webappv.Ai.Breaker.{
  Breakers, Options, options_of, is_circuit_open, state_for, chat_completion, attempts,
  after_failure,
}
use webappv.Ai.Breaker.Circuit.{fail_at, failures-is_circuit_open}
use webappv.Ai.Breaker.Calls.{IsAnswer, chat_completion-IsAnswer, chat_completion-failover}

abbrev no_breakers : Breakers
no_breakers key = none

abbrev options : Options
options = record {
  circuit_key = "openai:gpt-4o";
  failure_threshold = 3;
  cooldown_ms = 60_000;
  max_attempts = 2;
}

options_default : options_of "openai:gpt-4o" none none none ≡ options
unfolding options_of
options_default = refl

abbrev is_transient : String → Bool
is_transient message = message == "429"

abbrev clock : ℕ → ℕ
clock attempt = attempt

-- The primary provider is busy at first, and then answers.
abbrev answer : ℕ → Result String
answer (suc zero) = throw "429"
answer _ = ok "from primary"

abbrev backup : Option (Result String)
backup = some (ok "from secondary")

-- Without a second provider the first attempt is repeated, and the success clears the circuit.
retried_answer :
    (chat_completion options is_transient clock answer none 0 no_breakers).result
    ≡ ok "from primary"
unfolding chat_completion attempts after_failure is_circuit_open state_for
retried_answer = refl

chat_completion-IsAnswer_example :
    IsAnswer options is_transient clock answer backup 1 1
      (chat_completion options is_transient clock answer backup 0 no_breakers).result
chat_completion-IsAnswer_example =
    chat_completion-IsAnswer options is_transient clock answer backup 0 no_breakers (omega arith)

chat_completion-failover_example :
    (chat_completion options is_transient clock answer backup 0 no_breakers).result
    ≡ ok "from secondary"
chat_completion-failover_example =
    chat_completion-failover options is_transient clock answer backup 0 no_breakers "429"
      (ok "from secondary") refl refl refl

failures-is_circuit_open_example :
    ((is_circuit_open 70 "key" (fail_at "key" 3 60_000 (10 ∷ 20 ∷ 30 ∷ []) no_breakers)).1 ≡ true)
    ↔ ((3 ≤ 3) × (70 < 60_030))
failures-is_circuit_open_example =
    failures-is_circuit_open "key" 3 60_000 10 (20 ∷ 30 ∷ []) 70 no_breakers refl
