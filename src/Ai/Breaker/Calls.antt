-- ===== src/Ai/Breaker/Calls.antt =====
-- Which providers `chatCompletion` of src/services/ai-resilience.ts calls, and whose answer it gives.
use webappv.Common.{
  ℕ, zero, suc, String, ◌≡◌, refl, sym, ap, ◌∙◌, ◌⊎◌, inl, inr, ◌+◌, ◌≤◌, ◌<◌, Bool, true, false,
  Option, none, some, List, [], ◌∷◌, arith, Bool-cases, Option-cases, ltb, ◌&&◌, Result, ok, throw,
}
use webappv.Ai.Breaker.{
  Breakers, Options, Provider, primary, secondary, Outcome, after_failure, attempts,
  max_primary_attempts, is_circuit_open, chat_completion, route, record_failure, record_success,
}

-- how often each provider is called
abbrev pub primary_calls : List Provider → ℕ
primary_calls [] = 0
primary_calls (primary ∷ calls) = 1 + primary_calls calls
primary_calls (secondary ∷ calls) = primary_calls calls

abbrev pub secondary_calls : List Provider → ℕ
secondary_calls [] = 0
secondary_calls (primary ∷ calls) = secondary_calls calls
secondary_calls (secondary ∷ calls) = 1 + secondary_calls calls

Result-cases : {A : Type 0} (r : Result A) → ((m : String) × (r ≡ throw m)) ⊎ ((a : A) × (r ≡ ok a))
Result-cases (throw m) = inl (m, refl)
Result-cases (ok a) = inr (a, refl)

some_injective : {A : Type 0} {a b : A} → some a ≡ some b → a ≡ b
some_injective h = cc

route_cases :
    {A : Type 0} (fallback : Option (Result A)) (skip : Bool) (b : Breakers) (looped : Outcome A)
    → (route fallback skip b looped ≡ looped)
      ⊎ ((r : Result A) × (fallback ≡ some r)
          × (route fallback skip b looped
              ≡ record { breakers = b; calls = secondary ∷ []; result = r }))
route_cases none skip b looped = inl refl
route_cases (some r) true b looped = inr (r, refl, refl)
route_cases (some r) false b looped = inl refl

module _ {A : Type 0} (options : Options) (is_transient : String → Bool) (clock : ℕ → ℕ)
    (answer : ℕ → Result A) (fallback : Option (Result A)) where
  abbrev retried : ℕ → ℕ → ℕ → Breakers → Outcome A
  retried = attempts options is_transient clock answer fallback

  abbrev failing : ℕ → ℕ → String → Breakers → Outcome A → Outcome A
  failing = after_failure options is_transient clock answer fallback

  abbrev pub after : ℕ → Breakers → Breakers
  after attempt b =
      (record_failure (clock attempt) options.circuit_key options.failure_threshold
        options.cooldown_ms b).0

  attempts-ok :
      (most left attempt : ℕ) (b : Breakers) (a : A)
      → answer attempt ≡ ok a
      → retried most (suc left) attempt b ≡ record {
        breakers = record_success options.circuit_key b;
        calls = primary ∷ [];
        result = ok a;
      }
  unfolding attempts
  attempts-ok most left attempt b a e = rw (e, attempts)

  attempts-throw :
      (most left attempt : ℕ) (b : Breakers) (m : String)
      → answer attempt ≡ throw m
      → retried most (suc left) attempt b
        ≡ failing most attempt m
            (after attempt b)
            (retried most left (suc attempt) (after attempt b))
  unfolding attempts
  attempts-throw most left attempt b m e = rw (e, attempts)

  failing_calls :
      (most attempt : ℕ) (m : String) (b : Breakers) (retry : Outcome A)
      → secondary_calls retry.calls ≤ 1
      → (primary_calls (failing most attempt m b retry).calls ≤ 1 + primary_calls retry.calls)
        × (secondary_calls (failing most attempt m b retry).calls ≤ 1)
  unfolding after_failure
  failing_calls most attempt m b retry h = elim (Option-cases fallback) [
    | inl e ↦ rw (e, after_failure) (ground arith)
    | inr (r, e) ↦ rw (e, after_failure) (ground arith)
  ]

  attempts_calls :
      (most left attempt : ℕ) (b : Breakers)
      → (primary_calls (retried most left attempt b).calls ≤ left)
        × (secondary_calls (retried most left attempt b).calls ≤ 1)
  unfolding attempts
  attempts_calls most zero attempt b = (omega arith, omega arith)
  attempts_calls most (suc left) attempt b =
      let next = retried most left (suc attempt) (after attempt b) in
      let ih = attempts_calls most left (suc attempt) (after attempt b) in
      elim (Result-cases (answer attempt)) [
        | inr (a, e) ↦ rw (attempts-ok most left attempt b a e) (omega arith, omega arith)
        | inl (m, e) ↦
            let h = failing_calls most attempt m (after attempt b) next ih.1 in
            rw (attempts-throw most left attempt b m e) (omega (arith, h.0, ih.0), h.1)
      ]

  abbrev pub outcome : ℕ → Breakers → Outcome A
  outcome = chat_completion options is_transient clock answer fallback

  abbrev most_attempts : ℕ
  most_attempts = max_primary_attempts options is_transient clock answer fallback

  chat_cases :
      (now : ℕ) (b : Breakers)
      → ((b' : Breakers) × (outcome now b ≡ retried most_attempts most_attempts 1 b'))
        ⊎ ((b' : Breakers) × (r : Result A) × (fallback ≡ some r)
            × (outcome now b ≡ record { breakers = b'; calls = secondary ∷ []; result = r }))
  unfolding chat_completion
  chat_cases now b =
      let (b', skip) = is_circuit_open now options.circuit_key b in
      elim (route_cases fallback skip b' (retried most_attempts most_attempts 1 b')) [
        | inl e ↦ inl (b', e)
        | inr (r, f, e) ↦ inr (b', r, f, e)
      ]

  -- A call asks the primary provider at most as often as `maxPrimaryAttempts` says and the other at
  -- most once.
  chat_completion-calls :
      (now : ℕ) (b : Breakers)
      → (primary_calls (outcome now b).calls
          ≤ max_primary_attempts options is_transient clock answer fallback)
        × (secondary_calls (outcome now b).calls ≤ 1)
  chat_completion-calls now b = elim (chat_cases now b) [
    | inl (b', e) ↦ rw e (attempts_calls most_attempts most_attempts 1 b')
    | inr (b', r, f, e) ↦ rw e (omega arith, omega arith)
  ]

  -- An answer of the primary provider at one of the attempts allowed, or the other's.
  pub data IsAnswer (first most : ℕ) (r : Result A) : Type 0 where
    of_primary : (k : ℕ) → first ≤ k → k ≤ most → answer k ≡ r → IsAnswer first most r
    of_fallback : fallback ≡ some r → IsAnswer first most r

  IsAnswer-earlier : {k most : ℕ} {r : Result A} → IsAnswer (suc k) most r → IsAnswer k most r
  IsAnswer-earlier (of_primary k lo hi e) = of_primary k (omega arith) hi e
  IsAnswer-earlier (of_fallback e) = of_fallback e

  -- what the result behind a failure is
  failing_cases :
      (most attempt : ℕ) (m : String) (b : Breakers) (retry : Outcome A)
      → ((attempt < most) × ((failing most attempt m b retry).result ≡ retry.result))
        ⊎ (((failing most attempt m b retry).result ≡ throw m)
            ⊎ (fallback ≡ some (failing most attempt m b retry).result))
  unfolding after_failure
  failing_cases most attempt m b retry = elim (Option-cases fallback) [
    | inl f ↦ elim (Bool-cases (is_transient m && ltb attempt most)) [
      | inl t ↦ inl (ground arith, rw (f, after_failure) (rw t))
      | inr t ↦ inr (inl (rw (f, after_failure) (rw t)))
    ]
    | inr (r, f) ↦ elim (Bool-cases (is_transient m)) [
      | inl t ↦ inr (inr (rw (f, after_failure) (rw t)))
      | inr t ↦ inr (inl (rw (f, after_failure) (rw t)))
    ]
  ]

  failing-IsAnswer :
      (most attempt : ℕ) (m : String) (b : Breakers) (retry : Outcome A)
      → answer attempt ≡ throw m
      → attempt ≤ most
      → (attempt < most → IsAnswer attempt most retry.result)
      → IsAnswer attempt most (failing most attempt m b retry).result
  failing-IsAnswer most attempt m b retry e le h = elim (failing_cases most attempt m b retry) [
    | inl (lt, again) ↦ rw again (h lt)
    | inr (inl thrown) ↦ of_primary attempt (omega arith) le (e ∙ sym thrown)
    | inr (inr other) ↦ of_fallback other
  ]

  either :
      (most left attempt : ℕ) (b : Breakers)
      → attempt + left ≡ most
      → (attempt < most
          → IsAnswer attempt most (retried most left (suc attempt) (after attempt b)).result)
      → IsAnswer attempt most (retried most (suc left) attempt b).result
  either most left attempt b sum later = elim (Result-cases (answer attempt)) [
    | inr (a, e) ↦
        rw (attempts-ok most left attempt b a e)
          (of_primary attempt (omega arith) (omega (arith, sum)) e)
    | inl (m, e) ↦
        rw (attempts-throw most left attempt b m e)
          (failing-IsAnswer most attempt m (after attempt b) _ e (omega (arith, sum)) later)
  ]

  attempts-IsAnswer :
      (most left attempt : ℕ) (b : Breakers)
      → attempt + left ≡ most
      → IsAnswer attempt most (retried most (suc left) attempt b).result
  attempts-IsAnswer most zero attempt b sum =
      either most zero attempt b sum (λ lt. absurd (omega (arith, sum, lt)))
  attempts-IsAnswer most (suc left) attempt b sum = either most (suc left) attempt b sum (λ lt.
      IsAnswer-earlier
        (attempts-IsAnswer most left (suc attempt) (after attempt b) (omega (arith, sum))))

  -- Where at least one attempt is allowed, a call ends with what one of the providers said, at one
  -- of the attempts allowed, and never with the error behind the loop.
  pub chat_completion-IsAnswer :
      (now : ℕ) (b : Breakers)
      → 1 ≤ options.max_attempts
      → IsAnswer 1
          (max_primary_attempts options is_transient clock answer fallback)
          (outcome now b).result
  chat_completion-IsAnswer now b h = elim (chat_cases now b) [
    | inl (b', e) ↦ rw e (some_attempt most_attempts (ground arith) b')
    | inr (b', r, f, e) ↦ rw e (of_fallback f)
  ]
    where
      some_attempt : (n : ℕ) → 1 ≤ n → (b' : Breakers) → IsAnswer 1 n (retried n n 1 b').result
      some_attempt zero p b' = absurd (omega (arith, p))
      some_attempt (suc n) p b' = attempts-IsAnswer (suc n) n 1 b' (omega arith)

  -- With a second provider, a transient error of the primary one is not seen: the second answers.
  pub chat_completion-failover :
      (now : ℕ) (b : Breakers) (m : String) (r : Result A)
      → fallback ≡ some r
      → answer 1 ≡ throw m
      → is_transient m ≡ true
      → (outcome now b).result ≡ r
  unfolding after_failure
  chat_completion-failover now b m r f e t = elim (chat_cases now b) [
    | inr (b', r', f', c) ↦ rw c (some_injective (sym f' ∙ f))
    | inl (b', c) ↦ rw c (once (ground arith) b')
  ]
    where
      failed_over : (b' : Breakers) (retry : Outcome A) → (failing 1 1 m b' retry).result ≡ r
      failed_over b' retry = rw (f, after_failure) (rw t)

      once :
          most_attempts ≡ 1
          → (b' : Breakers) → (retried most_attempts most_attempts 1 b').result ≡ r
      once one b' =
          ap (λ n. (retried n n 1 b').result) one
          ∙ (ap (λ x. x.result) (attempts-throw 1 0 1 b' m e)
              ∙ failed_over (after 1 b') (retried 1 0 2 (after 1 b')))
