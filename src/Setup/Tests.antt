-- ===== src/Setup/Tests.antt =====
-- The theorems on the setup wizard (src/services/setup-wizard.ts) at concrete organizations.
use webappv.Common.{
  String, ◌≡◌, refl, sym, ap, ◌∙◌, ◌+◌, true, false, Option, none, some, List, [], ◌∷◌, Memᴰ,
  string_equality, Result, ok,
}
use webappv.Access.Roles.{admin}
use webappv.Setup.Wizard.{
  account_sync, Plan, free_trial, starter, professional, private, Database, new_wizard,
  get_or_create_wizard, update_wizard, complete_crm_connection, EntityResolutionFix, set_account,
  apply_entity_resolution_fixes, trial_ms, complete_plan_selection, PermissionsConfig,
  complete_permissions_setup,
}
use webappv.Setup.Wizard.Status.{Facts}
use webappv.Setup.Wizard.Steps.{
  IsDated, opened, permissions_set, Steps, start, after, Steps-IsDated,
}
use webappv.Setup.Wizard.Plans.{plan_selection_resets}
use webappv.Setup.Wizard.Fixes.{IsLinked, apply_entity_resolution_fixes-IsLinked}

-- An organization on a paid plan with two calls, one of them of no account.
abbrev database : Database
database = record {
  plan = professional;
  trial_ends_at = none;
  wizard = none;
  accounts = "acme" ∷ "globex" ∷ [];
  calls =
      record { id = "c1"; account_id = some "acme" } ∷ record { id = "c2"; account_id = none } ∷ [];
  settings = none;
}

abbrev with_wizard : Database
with_wizard = record database { wizard = some new_wizard }

abbrev config : PermissionsConfig
config = record {
  default_page_visibility = private;
  allowed_publishers = admin ∷ [];
  require_approval_to_publish = true;
}

-- A wizard that is opened, completed by its last step, and then linked to a CRM again.
abbrev finished : Database
finished = (complete_permissions_setup 5 config with_wizard).0

abbrev linked_again : Database
linked_again = (complete_crm_connection "SALESFORCE" "link" finished).0

all_steps : Steps database finished
unfolding get_or_create_wizard
all_steps = after (after start opened) (permissions_set 5 config)

Steps-IsDated_example : IsDated finished.wizard
Steps-IsDated_example = Steps-IsDated database finished refl all_steps

-- The wizard is back at its third step, with the time of its completion.
finished_goes_back :
    linked_again.wizard
    ≡ some (record new_wizard {
      current_step = account_sync;
      completed_at = some 5;
      permissions_configured_at = some 5;
      crm_provider = some "SALESFORCE";
      crm_merge_linked_account_id = some "link";
    })
unfolding complete_crm_connection complete_permissions_setup update_wizard
finished_goes_back = refl

-- A checkout that is not there: the call throws, and the paid plan is gone.
abbrev no_checkout : Plan → Result (Option String)
no_checkout chosen = ok none

plan_selection_resets_example :
    ((complete_plan_selection 7 starter no_checkout with_wizard).0.plan ≡ free_trial)
    × ((complete_plan_selection 7 starter no_checkout with_wizard).0.trial_ends_at
        ≡ some (7 + trial_ms))
plan_selection_resets_example = plan_selection_resets 7 starter no_checkout with_wizard

abbrev checkout_at : Plan → Result (Option String)
checkout_at chosen = ok (some "https://checkout")

-- A fix of a call, and one of an account that is not there.
abbrev fixes : List EntityResolutionFix
fixes =
    record { call_id = "c2"; account_id = "globex" }
    ∷ record { call_id = "c1"; account_id = "nowhere" }
    ∷ []

fixes_applied : (apply_entity_resolution_fixes fixes database).1 ≡ 1
unfolding apply_entity_resolution_fixes set_account
fixes_applied = refl

database-IsLinked : IsLinked database
database-IsLinked c a (Memᴰ.head e) f = Memᴰ.head (some_text (sym f ∙ ap (λ c. c.account_id) e))
  where
    some_text : {x y : String} → some x ≡ some y → x ≡ y
    some_text h = cc
database-IsLinked c a (Memᴰ.tail (Memᴰ.head e)) f =
    absurd (none_some (sym (ap (λ c. c.account_id) e) ∙ f))
  where
    none_some : {x : String} → ◌≡◌ {A = Option String} none (some x) → ⊥
    none_some h = cc
database-IsLinked c a (Memᴰ.tail (Memᴰ.tail m)) f = elim m [ ]

apply_entity_resolution_fixes-IsLinked_example :
    IsLinked (apply_entity_resolution_fixes fixes database).0
apply_entity_resolution_fixes-IsLinked_example =
    apply_entity_resolution_fixes-IsLinked fixes database database-IsLinked

abbrev facts : Facts
facts = record {
  company_overview = true;
  products = false;
  governance_defaults = false;
  role_presets = 6;
  stories = 1;
  published_pages = 0;
  integrations = 2;
}
