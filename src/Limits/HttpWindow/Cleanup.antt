-- ===== src/Limits/HttpWindow/Cleanup.antt =====
-- Why the cleanup of src/middleware/rate-limiter.ts is not seen.
use webappv.Common.{
  ℕ, String, ◌≡◌, refl, sym, ◌∙◌, ◌⊎◌, inl, inr, ◌≤◌, true, Option, none, some, List, [], ◌∷◌,
  arith, ◌==◌, string_equality, Bool-cases, Option-cases,
}
use webappv.Limits.HttpWindow.{
  RateLimitEntry, RateLimiterOptions, Store, set, Response, is_over, count_request, open_window,
  in_memory_check, cleanup,
}
use webappv.Limits.HttpWindow.Laws.{check_open, check_over}

-- Two stores that differ at most in entries whose window is over.
abbrev pub Similar : ℕ → Store → Store → Type 0
Similar now s s' =
    (key : String)
    → (s key ≡ s' key) ⊎ ((is_over now (s key) ≡ true) × (is_over now (s' key) ≡ true))

module _ (options : RateLimiterOptions) where
  set-Similar :
      (now : ℕ) (ip : String) (e : RateLimitEntry) (s s' : Store)
      → Similar now s s'
      → Similar now (set ip e s) (set ip e s')
  set-Similar now ip e s s' h key = elim (Bool-cases (ip == key)) [
    | inl same ↦ inl (rw same)
    | inr other ↦ rw other (h key)
  ]

  check_Similar :
      (now : ℕ) (ip : String) (s s' : Store)
      → Similar now s s'
      → ((in_memory_check options now ip s).1 ≡ (in_memory_check options now ip s').1)
        × Similar now (in_memory_check options now ip s).0 (in_memory_check options now ip s').0
  unfolding open_window count_request
  check_Similar now ip s s' h = elim (h ip) [
    | inl same ↦ elim (Bool-cases (is_over now (s ip))) [
      | inl over ↦
          rw (check_over options ip now s over, check_over options ip now s' (rw (← same) over))
            (refl, set-Similar now ip _ s s' h)
      | inr live ↦ elim (Option-cases (s ip)) [
        | inl e ↦ absurd (ground arith)
        | inr (entry, e) ↦
            let in_time : now ≤ entry.reset_at = ground arith in
            rw
              (
                check_open options ip now s entry e in_time,
                check_open options ip now s' entry (sym same ∙ e) in_time,
              )
              (refl, set-Similar now ip _ s s' h)
      ]
    ]
    | inr (over, over') ↦
        rw (check_over options ip now s over, check_over options ip now s' over')
          (refl, set-Similar now ip _ s s' h)
  ]

-- What happens to a limiter: requests, and its periodic cleanup.
pub data StoreEvent : Type 0 where
  request : String → StoreEvent
  swept : StoreEvent

abbrev pub without_sweeps : List (ℕ × StoreEvent) → List (ℕ × StoreEvent)
without_sweeps [] = []
without_sweeps ((now, request ip) ∷ events) = (now, request ip) ∷ without_sweeps events
without_sweeps ((now, swept) ∷ events) = without_sweeps events

-- The clock does not run backwards.
abbrev pub IsTimed : ℕ → List (ℕ × StoreEvent) → Type 0
IsTimed start [] = Unit
IsTimed start ((now, e) ∷ events) = (start ≤ now) × IsTimed now events

is_over_mono :
    (now later : ℕ) (o : Option RateLimitEntry)
    → now ≤ later
    → is_over now o ≡ true
    → is_over later o ≡ true
is_over_mono now later none le h = refl
is_over_mono now later (some e) le h = ground arith

Similar-mono : (now later : ℕ) (s s' : Store) → now ≤ later → Similar now s s' → Similar later s s'
Similar-mono now later s s' le h key = elim (h key) [
  | inl e ↦ inl e
  | inr (a, b) ↦ inr (is_over_mono now later _ le a, is_over_mono now later _ le b)
]

cleanup-Similar : (now : ℕ) (s s' : Store) → Similar now s s' → Similar now (cleanup now s) s'
unfolding cleanup
cleanup-Similar now s s' h key = elim (Bool-cases (is_over now (s key))) [
  | inl over ↦
      rw over (elim (h key) [ inl e ↦ inr (refl, rw (← e) over) | inr (a, b) ↦ inr (refl, b) ])
  | inr live ↦ rw live (h key)
]

module _ (options : RateLimiterOptions) where
  pub answers : List (ℕ × StoreEvent) → Store → List Response
  answers [] store = []
  answers ((now, request ip) ∷ events) store =
      let (store', response) = in_memory_check options now ip store in
      response ∷ answers events store'
  answers ((now, swept) ∷ events) store = answers events (cleanup now store)

  answers_agree :
      (start : ℕ) (events : List (ℕ × StoreEvent)) (s s' : Store)
      → IsTimed start events
      → Similar start s s'
      → answers events s ≡ answers (without_sweeps events) s'
  unfolding answers
  answers_agree start [] s s' t h = refl
  answers_agree start ((now, request ip) ∷ events) s s' (le, t) h =
      let (same, similar) = check_Similar options now ip s s' (Similar-mono start now s s' le h) in
      let ih = answers_agree now events _ _ t similar in cc
  answers_agree start ((now, swept) ∷ events) s s' (le, t) h =
      answers_agree now events (cleanup now s) s' t
        (cleanup-Similar now s s' (Similar-mono start now s s' le h))

  -- Whenever the cleanup runs, every request gets the answer that it would get without it, as long
  -- as the clock does not run backwards.
  pub cleanup_unseen :
      (start : ℕ) (events : List (ℕ × StoreEvent)) (store : Store)
      → IsTimed start events
      → answers events store ≡ answers (without_sweeps events) store
  cleanup_unseen start events store t = answers_agree start events store store t (λ key. inl refl)
