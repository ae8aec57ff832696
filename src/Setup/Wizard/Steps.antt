-- ===== src/Setup/Wizard/Steps.antt =====
-- What every sequence of operations of src/services/setup-wizard.ts keeps.
use webappv.Common.{
  ℕ, String, ◌≡◌, refl, inl, inr, Bool, true, false, Option, none, some, List, [], ◌∷◌, arith,
  Option-cases, Bool-cases, ◌==◌, string_equality, Result, ok, throw,
}
use webappv.Setup.Wizard.{
  SetupWizardStep, completed, Plan, free_trial, starter, professional, enterprise, Wizard, Database,
  get_or_create_wizard, update_wizard, complete_recording_provider, complete_crm_connection,
  EntityResolutionFix, apply_entity_resolution_fixes, applies, set_account,
  complete_account_sync_review, start_trial, select_paid, complete_plan_selection,
  PermissionsConfig, complete_permissions_setup, step_after, moved_to, skip_step,
}

abbrev pub is_set : Option ℕ → Bool
is_set none = false
is_set (some t) = true

-- A wizard at its last step has the time at which it was completed.
abbrev pub IsDated : Option Wizard → Type 0
IsDated none = Unit
IsDated (some w) = w.current_step ≡ completed → is_set w.completed_at ≡ true

-- One operation on the database of an organization, whatever it answers.
pub data Step (db : Database) : Database → Type 0 where
  opened : Step db (get_or_create_wizard db).0
  recording_linked : (p l : String) → Step db (complete_recording_provider p l db).0
  crm_linked : (p l : String) → Step db (complete_crm_connection p l db).0
  fixed : (fixes : List EntityResolutionFix) → Step db (apply_entity_resolution_fixes fixes db).0
  sync_reviewed : (now : ℕ) → Step db (complete_account_sync_review now db).0
  plan_chosen :
      (now : ℕ) (chosen : Plan) (session : Plan → Result (Option String))
      → Step db (complete_plan_selection now chosen session db).0
  permissions_set :
      (now : ℕ) (c : PermissionsConfig) → Step db (complete_permissions_setup now c db).0
  skipped : (now : ℕ) (s : SetupWizardStep) → Step db (skip_step now s db).0

pub data Steps (first : Database) : Database → Type 0 where
  start : Steps first first
  after : {db db' : Database} → Steps first db → Step db db' → Steps first db'

update_wizard-IsDated :
    {X : Type 0} (change : Wizard → Wizard) (x : X) (db : Database)
    → ((w : Wizard) → (change w).current_step ≡ completed → is_set (change w).completed_at ≡ true)
    → IsDated db.wizard
    → IsDated (update_wizard change x db).0.wizard
unfolding update_wizard
update_wizard-IsDated change x db keeps h = elim (Option-cases db.wizard) [
  | inl e ↦ rw (e, update_wizard) (rw e tt)
  | inr (w, e) ↦ rw (e, update_wizard) (keeps w)
]

fixes-wizard :
    (fixes : List EntityResolutionFix) (db : Database)
    → (apply_entity_resolution_fixes fixes db).0.wizard ≡ db.wizard
unfolding apply_entity_resolution_fixes
fixes-wizard [] db = refl
fixes-wizard (fix ∷ fixes) db = elim (Bool-cases (applies fix db)) [
  | inl e ↦
      rw (e, apply_entity_resolution_fixes)
        (fixes-wizard fixes (record db { calls = set_account fix db.calls }))
  | inr e ↦ rw (e, apply_entity_resolution_fixes) (fixes-wizard fixes db)
]

moved_to-IsDated :
    (now : ℕ) (s : SetupWizardStep) (w : Wizard)
    → (moved_to now s w).current_step ≡ completed
    → is_set (moved_to now s w).completed_at ≡ true
unfolding moved_to
moved_to-IsDated now completed w h = refl
moved_to-IsDated now _ w h = ground arith

select_paid-IsDated :
    (chosen : Plan) (session : Result (Option String)) (db : Database)
    → IsDated db.wizard
    → IsDated (select_paid chosen session db).0.wizard
unfolding select_paid
select_paid-IsDated chosen (throw m) db h = h
select_paid-IsDated chosen (ok none) db h = h
select_paid-IsDated chosen (ok (some url)) db h = elim (Bool-cases (url == "")) [
  | inl e ↦ rw (e, select_paid) h
  | inr e ↦ rw (e, select_paid) (update_wizard-IsDated _ _ db (λ w p. ground arith) h)
]

plan_selection-IsDated :
    (now : ℕ) (chosen : Plan) (session : Plan → Result (Option String)) (db : Database)
    → IsDated db.wizard
    → IsDated (complete_plan_selection now chosen session db).0.wizard
unfolding complete_plan_selection start_trial
plan_selection-IsDated now free_trial session db h =
    update_wizard-IsDated _ _ _ (λ w p. ground arith) h
plan_selection-IsDated now starter session db h = select_paid-IsDated _ _ _ h
plan_selection-IsDated now professional session db h = select_paid-IsDated _ _ _ h
plan_selection-IsDated now enterprise session db h = select_paid-IsDated _ _ _ h

skip_step-IsDated :
    (now : ℕ) (s : SetupWizardStep) (db : Database)
    → IsDated db.wizard
    → IsDated (skip_step now s db).0.wizard
unfolding skip_step
skip_step-IsDated now s db h = elim (Option-cases (step_after s)) [
  | inl e ↦ rw (e, skip_step) h
  | inr (next, e) ↦ rw (e, skip_step) (update_wizard-IsDated _ _ db (moved_to-IsDated now next) h)
]

opened-IsDated : (db : Database) → IsDated db.wizard → IsDated (get_or_create_wizard db).0.wizard
unfolding get_or_create_wizard
opened-IsDated db h = elim (Option-cases db.wizard) [
  | inl e ↦ rw (e, get_or_create_wizard) (λ p. ground arith)
  | inr (w, e) ↦ rw (e, get_or_create_wizard) h
]

step-IsDated : {db db' : Database} → Step db db' → IsDated db.wizard → IsDated db'.wizard
unfolding complete_recording_provider complete_crm_connection complete_account_sync_review
    complete_permissions_setup
step-IsDated {db} opened h = opened-IsDated db h
step-IsDated {db} (recording_linked p l) h = update_wizard-IsDated _ _ db (λ w e. ground arith) h
step-IsDated {db} (crm_linked p l) h = update_wizard-IsDated _ _ db (λ w e. ground arith) h
step-IsDated {db} (fixed fixes) h = rw (fixes-wizard fixes db) h
step-IsDated {db} (sync_reviewed now) h = update_wizard-IsDated _ _ db (λ w e. ground arith) h
step-IsDated {db} (plan_chosen now chosen session) h =
    plan_selection-IsDated now chosen session db h
step-IsDated {db} (permissions_set now c) h = update_wizard-IsDated _ _ _ (λ w e. refl) h
step-IsDated {db} (skipped now s) h = skip_step-IsDated now s db h

-- However the wizard of a new organization is used, in any order of steps, skips and errors: where
-- it stands at its last step, the time of its completion is stored.
pub Steps-IsDated : (first db : Database) → first.wizard ≡ none → Steps first db → IsDated db.wizard
Steps-IsDated first _ e start = rw e tt
Steps-IsDated first _ e (after {db} before step) =
    step-IsDated step (Steps-IsDated first db e before)
