-- ===== src/Setup/Wizard/Status.antt =====
-- `getStatus` of src/services/setup-wizard.ts: which steps are shown as complete, and the score.
use webappv.Common.{
  ℕ, ◌≡◌, ◌+◌, ◌*◌, ◌/◌, Bool, ◌&&◌, ◌||◌, List, [], ◌∷◌, ◌++◌, arith, if◌then◌else◌, ltb, leb,
  length, length-append, Bool-cases, inl, inr,
}
use webappv.Setup.Wizard.{
  SetupWizardStep, recording_provider, crm, account_sync, plan, permissions, completed, Wizard,
}

-- what the queries of `getStatus` find
pub record Facts : Type 0 where
  pub company_overview : Bool
  pub products : Bool
  pub governance_defaults : Bool
  pub role_presets : ℕ
  pub stories : ℕ
  pub published_pages : ℕ
  pub integrations : ℕ

pub data Prompt : Type 0 where
  org_profile connectors role_presets governance first_value : Prompt

pub record WizardStatus : Type 0 where
  pub current_step : SetupWizardStep
  pub completion_score : ℕ
  pub missing_prompts : List Prompt
  pub first_value_complete : Bool
  pub recording_provider_complete : Bool
  pub crm_complete : Bool
  pub account_sync_complete : Bool
  pub plan_complete : Bool
  pub permissions_complete : Bool

-- the step's place in `stepOrder`
abbrev pub index_of : SetupWizardStep → ℕ
index_of recording_provider = 0
index_of crm = 1
index_of account_sync = 2
index_of plan = 3
index_of permissions = 4
index_of completed = 5

abbrev pub is_complete : Prompt → Facts → Bool
is_complete org_profile f = f.company_overview || f.products
is_complete connectors f = leb 1 f.integrations
is_complete role_presets f = leb 3 f.role_presets
is_complete governance f = f.governance_defaults
is_complete first_value f = ltb 0 f.stories && ltb 0 f.published_pages

-- `checklist.filter(Boolean).length`
abbrev pub complete_count : List Bool → ℕ
complete_count [] = 0
complete_count (done ∷ rest) = (if done then 1 else 0) + complete_count rest

abbrev pub checklist : Facts → List Bool
checklist f =
    is_complete org_profile f
    ∷ is_complete connectors f
    ∷ is_complete role_presets f
    ∷ is_complete governance f
    ∷ is_complete first_value f
    ∷ []

abbrev pub missing : Prompt → Facts → List Prompt
missing p f = if is_complete p f then [] else p ∷ []

-- `Math.round` has nothing to round: a fifth of a hundred is whole
unfoldable pub get_status : Wizard → Facts → WizardStatus
get_status wizard f = record {
  current_step = wizard.current_step;
  completion_score = complete_count (checklist f) * 100 / 5;
  missing_prompts =
      missing org_profile f
      ++ (missing connectors f
          ++ (missing role_presets f ++ (missing governance f ++ missing first_value f)));
  first_value_complete = is_complete first_value f;
  recording_provider_complete = ltb 0 (index_of wizard.current_step);
  crm_complete = ltb 1 (index_of wizard.current_step);
  account_sync_complete = ltb 2 (index_of wizard.current_step);
  plan_complete = ltb 3 (index_of wizard.current_step);
  permissions_complete = ltb 4 (index_of wizard.current_step);
}

missing_one :
    (p : Prompt) (f : Facts) → (if is_complete p f then 1 else 0) + length (missing p f) ≡ 1
missing_one p f = elim (Bool-cases (is_complete p f)) [ inl e ↦ rw e | inr e ↦ rw e ]

-- The score and the prompts agree: each prompt that is missing takes 20 off the full score of 100.
get_status-score :
    (wizard : Wizard) (f : Facts)
    → (get_status wizard f).completion_score + 20 * length (get_status wizard f).missing_prompts
      ≡ 100
unfolding get_status
get_status-score wizard f =
    let e = missing first_value f in
    let d = missing governance f in
    let c = missing role_presets f in
    let b = missing connectors f in
    omega (
      arith,
      length-append (missing org_profile f) (b ++ (c ++ (d ++ e))),
      length-append b (c ++ (d ++ e)),
      length-append c (d ++ e),
      length-append d e,
      missing_one org_profile f,
      missing_one connectors f,
      missing_one role_presets f,
      missing_one governance f,
      missing_one first_value f,
    )
