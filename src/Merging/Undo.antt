-- ===== src/Merging/Undo.antt =====
-- src/services/account-merge.ts: `undoMerge`, one transaction, and the account that it makes from
-- the snapshot of the run. `normalize` is `normalizeCompanyName`.
use webappv.Common.{
  String, Bool, false, ◌&&◌, ◌||◌, none, some, [], ◌∷◌, ◌++◌, ℕ, if◌then◌else◌, ◌==◌,
  string_equality, opt_eq, any, includes, select, find, length, update_where, Result, ok, throw,
  ◌>>=◌,
}
use webappv.Setup.Wizard.{Call}
use webappv.Merging.Database.{
  Account, Contact, Story, Snapshot, completed, undone, AccountMergeRun, Database, find_account,
  required,
}
use webappv.Merging.Merge.{is_of}

pub record UndoResult : Type 0 where
  pub restored_contacts : ℕ
  pub restored_calls : ℕ
  pub restored_stories : ℕ

-- the account that is created from a snapshot
unfoldable pub restored_account :
    (normalize : String → String) → (organization_id : String) → Snapshot → Account
restored_account normalize organization_id s = record {
  id = s.id;
  organization_id = organization_id;
  name = s.name;
  normalized_name = normalize s.name;
  domain = s.domain;
  salesforce_id = none;
  hubspot_id = none;
  merge_account_id = none;
  industry = s.industry;
  employee_count = s.employee_count;
  annual_revenue = s.annual_revenue;
}

-- the rows of a run that are still the primary account's
abbrev pub to_restore_call : AccountMergeRun → Call → Bool
to_restore_call run c = includes run.moved_call_ids c.id && is_of run.primary_account_id c

abbrev pub to_restore_story : AccountMergeRun → Story → Bool
to_restore_story run s = includes run.moved_story_ids s.id && s.account_id == run.primary_account_id

abbrev pub to_restore_contact : AccountMergeRun → Contact → Bool
to_restore_contact run c =
    includes run.moved_contact_ids c.id && c.account_id == run.primary_account_id

unfoldable pub restore_rows : AccountMergeRun → Database → Database
restore_rows run db = record db {
  contacts =
      update_where (to_restore_contact run)
        (λ c. record c { account_id = run.secondary_account_id }) db.contacts;
  calls =
      update_where (to_restore_call run)
        (λ c. record c { account_id = some run.secondary_account_id }) db.calls;
  stories =
      update_where (to_restore_story run) (λ s. record s { account_id = run.secondary_account_id })
        db.stories;
  runs = update_where (λ r. r.id == run.id) (λ r. record r { status = undone }) db.runs;
}

-- the counts of the three `updateMany`
abbrev pub undo_result : AccountMergeRun → Database → UndoResult
undo_result run db = record {
  restored_contacts = length (select (to_restore_contact run) db.contacts);
  restored_calls = length (select (to_restore_call run) db.calls);
  restored_stories = length (select (to_restore_story run) db.stories);
}

-- `account.create` under `@@unique([organizationId, domain])`
abbrev pub same_domain : Account → Account → Bool
same_domain account other = elim account.domain [
  | none ↦ false
  | some d ↦ other.organization_id == account.organization_id && opt_eq other.domain (some d)
]

unfoldable pub create_account : Account → Database → Result Database
create_account account db =
    if any (λ a. a.id == account.id || same_domain account a) db.accounts
    then throw "Unique constraint failed"
    else ok (record db { accounts = db.accounts ++ account ∷ [] })

module _ (normalize : String → String) (organization_id : String) where
  unfoldable pub restore_account : Snapshot → Database → Result Database
  restore_account s db = elim (find_account organization_id s.id db) [
    | some existing ↦ ok db
    | none ↦ create_account (restored_account normalize organization_id s) db
  ]

  unfoldable pub undo_run : AccountMergeRun → Database → Result (Database × UndoResult)
  undo_run run db = do
    db' ← restore_account run.secondary db
    ok (
      restore_rows run db',
      record {
        restored_contacts = length (select (to_restore_contact run) db'.contacts);
        restored_calls = length (select (to_restore_call run) db'.calls);
        restored_stories = length (select (to_restore_story run) db'.stories);
      },
    )

  unfoldable pub undo_merge : (run_id : String) → Database → Result (Database × UndoResult)
  undo_merge run_id db = do
    run ←
        required "Merge run not found"
          (find (λ r. r.id == run_id && r.organization_id == organization_id) db.runs)
    elim run.status [ undone ↦ throw "Merge run already undone" | completed ↦ undo_run run db ]
