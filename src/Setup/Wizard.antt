-- ===== src/Setup/Wizard.antt =====
-- src/services/setup-wizard.ts: the steps of the setup wizard. The database is that of one
-- organization: its own row, its wizard, accounts, calls and settings. An operation gives the
-- database as it leaves it, also where it throws. `now` is `new Date()` in milliseconds; the names
-- of providers are texts. The calls of Merge.dev and the texts of the plans are left out.
pub mod Status
pub mod Steps
pub mod Plans
pub mod Fixes
use webappv.Common.{
  ℕ, String, ◌+◌, ◌*◌, Bool, true, false, not, ◌&&◌, ◌||◌, Option, none, some, List, [], ◌∷◌,
  if◌then◌else◌, leb, ltb, ◌==◌, string_equality, length, select, includes, any, Result, ok, throw,
}
use webappv.Access.Roles.{UserRole}

pub data SetupWizardStep : Type 0 where
  recording_provider crm account_sync plan permissions completed : SetupWizardStep

pub data Plan : Type 0 where
  free_trial starter professional enterprise : Plan

-- model SetupWizard
pub record Wizard : Type 0 where
  pub current_step : SetupWizardStep
  pub completed_at : Option ℕ
  pub recording_provider : Option String
  pub merge_linked_account_id : Option String
  pub crm_provider : Option String
  pub crm_merge_linked_account_id : Option String
  pub synced_account_count : ℕ
  pub unresolved_count : ℕ
  pub sync_reviewed_at : Option ℕ
  pub selected_plan : Option Plan
  pub permissions_configured_at : Option ℕ

pub record Call : Type 0 where
  pub id : String
  pub account_id : Option String

pub data Visibility : Type 0 where
  private shared_with_link : Visibility

-- the two values of the enumeration that the wizard sets
pub data ApprovalPolicy : Type 0 where
  all_required all_no_approval : ApprovalPolicy

pub record Settings : Type 0 where
  pub landing_pages_enabled : Bool
  pub default_page_visibility : Visibility
  pub approval_policy : ApprovalPolicy
  pub allowed_publishers : List UserRole
  pub require_approval_to_publish : Bool

pub record Database : Type 0 where
  pub plan : Plan
  pub trial_ends_at : Option ℕ
  pub wizard : Option Wizard
  pub accounts : List String
  pub calls : List Call
  pub settings : Option Settings

abbrev pub new_wizard : Wizard
new_wizard = record {
  current_step = recording_provider;
  completed_at = none;
  recording_provider = none;
  merge_linked_account_id = none;
  crm_provider = none;
  crm_merge_linked_account_id = none;
  synced_account_count = 0;
  unresolved_count = 0;
  sync_reviewed_at = none;
  selected_plan = none;
  permissions_configured_at = none;
}

-- the `upsert` of `getOrCreateWizard`
unfoldable pub get_or_create_wizard : Database → Database × Wizard
get_or_create_wizard db = elim db.wizard [
  | none ↦ (record db { wizard = some new_wizard }, new_wizard)
  | some w ↦ (db, w)
]

-- `setupWizard.update`, which throws where there is no row
unfoldable pub update_wizard : {X : Type 0} → (Wizard → Wizard) → X → Database → Database × Result X
update_wizard change x db = elim db.wizard [
  | none ↦ (db, throw "No record was found for an update.")
  | some w ↦ (record db { wizard = some (change w) }, ok x)
]

unfoldable pub complete_recording_provider :
    (provider merge_linked_account_id : String) → Database → Database × Result (Unit {0})
complete_recording_provider provider linked =
    update_wizard
      (λ w. record w {
        recording_provider = some provider;
        merge_linked_account_id = some linked;
        current_step = crm;
      })
      tt

unfoldable pub complete_crm_connection :
    (provider merge_linked_account_id : String) → Database → Database × Result (Unit {0})
complete_crm_connection provider linked =
    update_wizard
      (λ w. record w {
        crm_provider = some provider;
        crm_merge_linked_account_id = some linked;
        current_step = account_sync;
      })
      tt

pub record EntityResolutionFix : Type 0 where
  pub call_id : String
  pub account_id : String

abbrev pub is_unresolved : Call → Bool
is_unresolved call = elim call.account_id [ none ↦ true | some a ↦ false ]

-- `call.update` of the call with an id
unfoldable pub set_account : EntityResolutionFix → List Call → List Call
set_account fix [] = []
set_account fix (call ∷ calls) =
    (if call.id == fix.call_id then record call { account_id = some fix.account_id } else call)
    ∷ set_account fix calls

abbrev pub applies : EntityResolutionFix → Database → Bool
applies fix db =
    any (λ call. call.id == fix.call_id) db.calls && includes db.accounts fix.account_id

unfoldable pub apply_entity_resolution_fixes : List EntityResolutionFix → Database → Database × ℕ
apply_entity_resolution_fixes [] db = (db, 0)
apply_entity_resolution_fixes (fix ∷ fixes) db =
    let done =
      apply_entity_resolution_fixes fixes (record db { calls = set_account fix db.calls }) in
    let skipped = apply_entity_resolution_fixes fixes db in
    if applies fix db then (done.0, done.1 + 1) else skipped

unfoldable pub complete_account_sync_review : (now : ℕ) → Database → Database × Result (Unit {0})
complete_account_sync_review now db =
    update_wizard
      (λ w. record w {
        synced_account_count = length db.accounts;
        unresolved_count = length (select is_unresolved db.calls);
        sync_reviewed_at = some now;
        current_step = plan;
      })
      tt db

abbrev pub trial_ms : ℕ
trial_ms = 14 * 24 * 60 * 60 * 1000

-- the organization's update, which comes first
unfoldable pub start_trial : (now : ℕ) → Database → Database
start_trial now db = record db { plan = free_trial; trial_ends_at = some (now + trial_ms) }

abbrev pub record_selection :
    Plan → SetupWizardStep → Option String → Database → Database × Result (Option String)
record_selection chosen next url =
    update_wizard (λ w. record w { selected_plan = some chosen; current_step = next }) url

-- a paid plan, with the answer of `stripe.createCheckoutSession`
unfoldable pub select_paid :
    Plan → Result (Option String) → Database → Database × Result (Option String)
select_paid chosen (throw message) db = (db, throw message)
select_paid chosen (ok none) db =
    (db, throw "Selected plan is not configured for self-serve checkout.")
select_paid chosen (ok (some url)) db =
    if url == ""
    then (db, throw "Selected plan is not configured for self-serve checkout.")
    else record_selection chosen plan (some url) db

unfoldable pub complete_plan_selection :
    (now : ℕ)
    → Plan
    → (create_checkout_session : Plan → Result (Option String)) → Database
    → Database × Result (Option String)
complete_plan_selection now free_trial session db =
    record_selection free_trial permissions none (start_trial now db)
complete_plan_selection now chosen session db =
    select_paid chosen (session chosen) (start_trial now db)

pub record PermissionsConfig : Type 0 where
  pub default_page_visibility : Visibility
  pub allowed_publishers : List UserRole
  pub require_approval_to_publish : Bool

-- `orgSettings.upsert`
unfoldable pub upsert_settings : PermissionsConfig → Option Settings → Settings
upsert_settings config old = record {
  landing_pages_enabled = elim old [ none ↦ true | some s ↦ s.landing_pages_enabled ];
  default_page_visibility = config.default_page_visibility;
  approval_policy = if config.require_approval_to_publish then all_required else all_no_approval;
  allowed_publishers = config.allowed_publishers;
  require_approval_to_publish = config.require_approval_to_publish;
}

unfoldable pub complete_permissions_setup :
    (now : ℕ) → PermissionsConfig → Database → Database × Result (Unit {0})
complete_permissions_setup now config db =
    update_wizard
      (λ w. record w {
        permissions_configured_at = some now;
        current_step = completed;
        completed_at = some now;
      })
      tt (record db { settings = some (upsert_settings config db.settings) })

-- `stepOrder[currentIdx + 1]`, absent for the last
unfoldable pub step_after : SetupWizardStep → Option SetupWizardStep
step_after recording_provider = some crm
step_after crm = some account_sync
step_after account_sync = some plan
step_after plan = some permissions
step_after permissions = some completed
step_after completed = none

-- `updateData` of `skipStep`
unfoldable pub moved_to : (now : ℕ) → SetupWizardStep → Wizard → Wizard
moved_to now completed w = record w { current_step = completed; completed_at = some now }
moved_to now next w = record w { current_step = next }

unfoldable pub skip_step : (now : ℕ) → SetupWizardStep → Database → Database × Result (Unit {0})
skip_step now step db = elim (step_after step) [
  | none ↦ (db, throw "Cannot skip step")
  | some next ↦ update_wizard (moved_to now next) tt db
]
