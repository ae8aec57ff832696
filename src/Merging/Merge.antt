-- ===== src/Merging/Merge.antt =====
-- src/services/account-merge.ts: `executeMerge`, one transaction, so that an error leaves the
-- database as it is. `new_alias_id` and `new_run_id` are the ids that the database gives; the
-- preview that is stored for display, the notes and the users' ids are left out.
use webappv.Common.{
  ℕ, String, Bool, true, false, not, ◌&&◌, ◌||◌, Option, none, some, List, [], ◌∷◌, ◌++◌, map,
  if◌then◌else◌, ◌==◌, string_equality, opt_eq, truthy, any, includes, select, length, update_where,
  Result, ok, throw, ◌>>=◌,
}
use webappv.Setup.Wizard.{Call}
use webappv.Merging.Database.{
  Account, Contact, AccountDomain, Snapshot, completed, AccountMergeRun, Database, find_account,
  required, update_account, set_grant_account, delete_account,
}

pub record MergeResult : Type 0 where
  pub merge_run_id : String
  pub contacts_moved : ℕ
  pub calls_moved : ℕ
  pub stories_moved : ℕ
  pub landing_pages_moved : ℕ
  pub domain_aliases_added : List String

abbrev pub is_of : String → Call → Bool
is_of id call = opt_eq call.account_id (some id)

-- two columns under a unique index: `null`s do not clash
abbrev pub same_value : Option String → Option String → Bool
same_value (some s) (some t) = s == t
same_value (some s) none = false
same_value none other = false

module _ (primary_id secondary_id : String) where
  -- one contact of the secondary account: unlinked and deleted where the primary has its email
  unfoldable pub move_contact : List String → Contact → Database → Database
  move_contact primary_emails contact db =
      if includes primary_emails contact.email
      then record db {
        participants =
            update_where (λ p. opt_eq p.contact_id (some contact.id))
              (λ p. record p { contact_id = none }) db.participants;
        contacts = select (λ c. not (c.id == contact.id)) db.contacts;
      }
      else record db {
        contacts =
            update_where (λ c. c.id == contact.id) (λ c. record c { account_id = primary_id })
              db.contacts;
      }

  unfoldable pub move_contacts : List String → List Contact → Database → Database
  move_contacts primary_emails [] db = db
  move_contacts primary_emails (c ∷ contacts) db =
      move_contacts primary_emails contacts (move_contact primary_emails c db)

  abbrev pub emails_of : String → Database → List String
  emails_of id db = map (λ c. c.email) (select (λ c. c.account_id == id) db.contacts)

  abbrev pub moved_contacts : Database → List Contact
  moved_contacts db =
      select (λ c. c.account_id == secondary_id && not (includes (emails_of primary_id db) c.email))
        db.contacts

  unfoldable pub step_contacts : Database → Database
  step_contacts db =
      move_contacts (emails_of primary_id db)
        (select (λ c. c.account_id == secondary_id) db.contacts) db

  -- steps 2, 3 and 6: the rows of the secondary account become the primary's
  unfoldable pub step_rows : Database → Database
  step_rows db = record db {
    calls =
        update_where (is_of secondary_id) (λ c. record c { account_id = some primary_id }) db.calls;
    stories =
        update_where (λ s. s.account_id == secondary_id) (λ s. record s { account_id = primary_id })
          db.stories;
    grants =
        update_where (λ g. opt_eq g.account_id (some secondary_id))
          (set_grant_account (some primary_id)) db.grants;
  }

  -- `@@unique([accountId, opportunityId, stageName])`
  abbrev pub events_clash : Database → Bool
  events_clash db =
      any
        (λ e.
          e.account_id == secondary_id
          && any
              (λ f.
                f.account_id == primary_id
                && same_value f.opportunity_id e.opportunity_id
                && same_value f.stage_name e.stage_name)
              db.events)
        db.events

  unfoldable pub step_events : Database → Result Database
  step_events db =
      if events_clash db
      then throw "Unique constraint failed"
      else ok (record db {
        events =
            update_where (λ e. e.account_id == secondary_id)
              (λ e. record e { account_id = primary_id }) db.events;
      })

  abbrev pub has_alias : String → Database → Bool
  has_alias domain db = any (λ d. d.account_id == primary_id && d.domain == domain) db.domains

  -- the secondary account's own domain
  unfoldable pub add_domain :
      String → Option String → Option String → Database → Database × List String
  add_domain new_alias_id own none db = (db, [])
  add_domain new_alias_id own (some domain) db =
      if opt_eq own (some domain) || has_alias domain db then (db, []) else (
        record db {
          domains =
              db.domains
              ++ record { id = new_alias_id; account_id = primary_id; domain = domain } ∷ [];
        },
        domain ∷ [],
      )

  abbrev pub drop_alias : AccountDomain → Database → Database
  drop_alias alias db = record db { domains = select (λ d. not (d.id == alias.id)) db.domains }

  abbrev pub take_alias : AccountDomain → Database → Database
  take_alias alias db = record db {
    domains =
        update_where (λ d. d.id == alias.id) (λ d. record d { account_id = primary_id }) db.domains;
  }

  -- the loop over the secondary account's aliases
  unfoldable pub move_aliases :
      Option String → List AccountDomain → Database → Database × List String
  move_aliases own [] db = (db, [])
  move_aliases own (alias ∷ aliases) db =
      let dropped = move_aliases own aliases (drop_alias alias db) in
      let (db', added) = move_aliases own aliases (take_alias alias db) in
      if opt_eq own (some alias.domain) || has_alias alias.domain db
      then dropped
      else (db', alias.domain ∷ added)

  unfoldable pub step_domains : String → Account → Account → Database → Database × List String
  step_domains new_alias_id primary secondary db =
      let (db', first) = add_domain new_alias_id primary.domain (truthy secondary.domain) db in
      let (db'', rest) =
        move_aliases primary.domain (select (λ d. d.account_id == secondary_id) db'.domains) db' in
      (db'', first ++ rest)

-- `!primary.x && secondary.x`
abbrev pub or_truthy : Option String → Option String → Option String
or_truthy own other = elim (truthy own) [
  | some s ↦ own
  | none ↦ elim (truthy other) [ none ↦ own | some s ↦ other ]
]

abbrev pub or_other : Option ℕ → Option ℕ → Option ℕ
or_other none other = other
or_other (some n) other = some n

-- the primary account with `crmUpdates`
unfoldable pub with_crm_updates : Account → Account → Account
with_crm_updates primary secondary = record primary {
  salesforce_id = or_truthy primary.salesforce_id secondary.salesforce_id;
  hubspot_id = or_truthy primary.hubspot_id secondary.hubspot_id;
  merge_account_id = or_truthy primary.merge_account_id secondary.merge_account_id;
  industry = or_truthy primary.industry secondary.industry;
  employee_count = or_other primary.employee_count secondary.employee_count;
  annual_revenue = or_other primary.annual_revenue secondary.annual_revenue;
}

abbrev pub snapshot : Account → Snapshot
snapshot a = record {
  id = a.id;
  name = a.name;
  domain = a.domain;
  industry = a.industry;
  employee_count = a.employee_count;
  annual_revenue = a.annual_revenue;
}

abbrev pub fills : Option String → Option String → Bool
fills own other = elim (truthy own) [
  | some s ↦ false
  | none ↦ elim (truthy other) [ none ↦ false | some s ↦ true ]
]

abbrev pub fills_number : Option ℕ → Option ℕ → Bool
fills_number none (some n) = true
fills_number _ _ = false

-- `Object.keys(crmUpdates).length > 0`
abbrev pub has_crm_updates : Account → Account → Bool
has_crm_updates primary secondary =
    fills primary.salesforce_id secondary.salesforce_id
    || fills primary.hubspot_id secondary.hubspot_id
    || fills primary.merge_account_id secondary.merge_account_id
    || fills primary.industry secondary.industry
    || fills_number primary.employee_count secondary.employee_count
    || fills_number primary.annual_revenue secondary.annual_revenue

unfoldable pub step_crm : Account → Account → Database → Result Database
step_crm primary secondary db =
    if has_crm_updates primary secondary
    then update_account (with_crm_updates primary secondary) db
    else ok db

module _ (organization_id primary_id secondary_id new_alias_id new_run_id : String) where
  abbrev pub moved_stories : Database → List String
  moved_stories db = map (λ s. s.id) (select (λ s. s.account_id == secondary_id) db.stories)

  -- the run that is stored, from the database before the merge
  unfoldable pub merge_run : Account → Database → AccountMergeRun
  merge_run secondary db = record {
    id = new_run_id;
    organization_id = organization_id;
    primary_account_id = primary_id;
    secondary_account_id = secondary_id;
    status = completed;
    secondary = snapshot secondary;
    moved_contact_ids = map (λ c. c.id) (moved_contacts primary_id secondary_id db);
    moved_call_ids = map (λ c. c.id) (select (is_of secondary_id) db.calls);
    moved_story_ids = moved_stories db;
    moved_landing_page_ids =
        map (λ p. p.id)
          (select
            (λ p. p.organization_id == organization_id && includes (moved_stories db) p.story_id)
            db.pages);
  }

  abbrev pub result_of : AccountMergeRun → List String → MergeResult
  result_of run added = record {
    merge_run_id = run.id;
    contacts_moved = length run.moved_contact_ids;
    calls_moved = length run.moved_call_ids;
    stories_moved = length run.moved_story_ids;
    landing_pages_moved = length run.moved_landing_page_ids;
    domain_aliases_added = added;
  }

  -- steps 1 to 9
  unfoldable pub merge_rows : Account → Account → Database → Result (Database × List String)
  merge_rows primary secondary db = do
    moved ←
        step_events primary_id secondary_id
          (step_rows primary_id secondary_id (step_contacts primary_id secondary_id db))
    let (aliased, added) = step_domains primary_id secondary_id new_alias_id primary secondary moved
    updated ← step_crm primary secondary aliased
    deleted ← delete_account secondary_id updated
    ok (deleted, added)

  -- the transaction, between two accounts
  unfoldable pub merge_accounts : Account → Account → Database → Result (Database × MergeResult)
  merge_accounts primary secondary db = do
    merged ← merge_rows primary secondary db
    let run = merge_run secondary db
    ok (record (merged.0) { runs = merged.0.runs ++ run ∷ [] }, result_of run merged.1)

  unfoldable pub execute_merge : Database → Result (Database × MergeResult)
  execute_merge db = do
    primary ←
        required "Primary account not found in organization"
          (find_account organization_id primary_id db)
    secondary ←
        required "Secondary account not found in organization"
          (find_account organization_id secondary_id db)
    (if primary_id == secondary_id
        then throw "Cannot merge an account with itself"
        else merge_accounts primary secondary db)
