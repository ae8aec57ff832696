-- ===== src/Setup/Wizard/Plans.antt =====
-- What the choice of a plan leaves behind (src/services/setup-wizard.ts).
use text.Mathlib.TextEquality.{eq_iff}
use webappv.Common.{
  ℕ, String, ◌≡◌, refl, ◌≢◌, inl, inr, ◌+◌, Option, none, some, arith, Option-cases, Bool-cases,
  ◌==◌, string_equality, Result, ok, throw,
}
use webappv.Setup.Wizard.{
  plan, permissions, Plan, free_trial, starter, professional, enterprise, Wizard, Database,
  update_wizard, trial_ms, start_trial, record_selection, select_paid, complete_plan_selection,
}

update_wizard_keeps :
    {X : Type 0} (change : Wizard → Wizard) (x : X) (db : Database)
    → ((update_wizard change x db).0.plan ≡ db.plan)
      × ((update_wizard change x db).0.trial_ends_at ≡ db.trial_ends_at)
unfolding update_wizard
update_wizard_keeps change x db = elim (Option-cases db.wizard) [
  | inl e ↦ rw (e, update_wizard) (refl, refl)
  | inr (w, e) ↦ rw (e, update_wizard) (refl, refl)
]

select_paid_keeps :
    (chosen : Plan) (session : Result (Option String)) (db : Database)
    → ((select_paid chosen session db).0.plan ≡ db.plan)
      × ((select_paid chosen session db).0.trial_ends_at ≡ db.trial_ends_at)
unfolding select_paid
select_paid_keeps chosen (throw m) db = (refl, refl)
select_paid_keeps chosen (ok none) db = (refl, refl)
select_paid_keeps chosen (ok (some url)) db = elim (Bool-cases (url == "")) [
  | inl e ↦ rw (e, select_paid) (refl, refl)
  | inr e ↦ rw (e, select_paid) (update_wizard_keeps _ (some url) db)
]

-- Whatever plan is chosen, and even where the checkout fails and the call throws, the organization
-- is left on a free trial that ends 14 days from now.
pub plan_selection_resets :
    (now : ℕ) (chosen : Plan) (session : Plan → Result (Option String)) (db : Database)
    → ((complete_plan_selection now chosen session db).0.plan ≡ free_trial)
      × ((complete_plan_selection now chosen session db).0.trial_ends_at ≡ some (now + trial_ms))
unfolding complete_plan_selection start_trial
plan_selection_resets now free_trial session db = update_wizard_keeps _ none (start_trial now db)
plan_selection_resets now starter session db = select_paid_keeps _ _ (start_trial now db)
plan_selection_resets now professional session db = select_paid_keeps _ _ (start_trial now db)
plan_selection_resets now enterprise session db = select_paid_keeps _ _ (start_trial now db)

-- How the wizard stands after a choice that does not throw.
pub data IsChosen (chosen : Plan) (url : Option String) (w : Wizard) : Type 0 where
  trial : chosen ≡ free_trial → url ≡ none → w.current_step ≡ permissions → IsChosen chosen url w
  checkout :
      (u : String)
      → chosen ≢ free_trial
      → url ≡ some u
      → u ≢ ""
      → w.current_step ≡ plan
      → IsChosen chosen url w

select_paid-IsChosen :
    (chosen : Plan) (session : Result (Option String)) (db : Database) (url : Option String)
    → chosen ≢ free_trial
    → (select_paid chosen session db).1 ≡ ok url
    → (w : Wizard) × ((select_paid chosen session db).0.wizard ≡ some w)
      × (w.selected_plan ≡ some chosen)
      × IsChosen chosen url w
unfolding select_paid update_wizard
select_paid-IsChosen chosen (throw m) db url n h = cc
select_paid-IsChosen chosen (ok none) db url n h = cc
select_paid-IsChosen chosen (ok (some u)) db url n h = elim (Bool-cases (u == "")) [
  | inl e ↦ absurd (ground arith)
  | inr e ↦ elim (Option-cases db.wizard) [
    | inl f ↦ absurd (ground arith)
    | inr (w, f) ↦ (
      record w { selected_plan = some chosen; current_step = plan },
      ground arith,
      refl,
      checkout u n (ground arith) (ground (arith, eq_iff u "")) refl,
    )
  ]
]

trial-IsChosen :
    (db : Database) (url : Option String)
    → (record_selection free_trial permissions none db).1 ≡ ok url
    → (w : Wizard) × ((record_selection free_trial permissions none db).0.wizard ≡ some w)
      × (w.selected_plan ≡ some free_trial)
      × IsChosen free_trial url w
unfolding update_wizard
trial-IsChosen db url h = elim (Option-cases db.wizard) [
  | inl f ↦ absurd (ground arith)
  | inr (w, f) ↦ (
    record w { selected_plan = some free_trial; current_step = permissions },
    ground arith,
    refl,
    trial refl (ground arith) refl,
  )
]

-- A choice that does not throw is stored in the wizard. It goes on to the permissions for a free
-- trial only; for a paid plan there is a checkout address, and the wizard stays at the plans.
plan_selection-IsChosen :
    (now : ℕ) (chosen : Plan) (session : Plan → Result (Option String)) (db : Database)
    (url : Option String)
    → (complete_plan_selection now chosen session db).1 ≡ ok url
    → (w : Wizard) × ((complete_plan_selection now chosen session db).0.wizard ≡ some w)
      × (w.selected_plan ≡ some chosen)
      × IsChosen chosen url w
unfolding complete_plan_selection
plan_selection-IsChosen now free_trial session db url h = trial-IsChosen (start_trial now db) url h
plan_selection-IsChosen now starter session db url h =
    select_paid-IsChosen starter (session starter) (start_trial now db) url (λ e. cc) h
plan_selection-IsChosen now professional session db url h =
    select_paid-IsChosen professional (session professional) (start_trial now db) url (λ e. cc) h
plan_selection-IsChosen now enterprise session db url h =
    select_paid-IsChosen enterprise (session enterprise) (start_trial now db) url (λ e. cc) h
