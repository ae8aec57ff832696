-- ===== src/Merging/Database.antt =====
-- The tables of prisma/schema.prisma that an account merge reads and writes, with the columns it
-- uses, and the writes that the database may refuse. Ids are given by the caller.
use webappv.Common.{
  ℕ, String, Bool, false, not, ◌&&◌, ◌||◌, Option, none, some, List, if◌then◌else◌, ◌==◌,
  string_equality, opt_eq, any, select, find, update_where, Result, ok, throw,
}
use webappv.Access.Schema.{Grant}
use webappv.Setup.Wizard.{Call}

-- `annualRevenue` is a `Float` that is only copied.
pub record Account : Type 0 where
  pub id : String
  pub organization_id : String
  pub name : String
  pub normalized_name : String
  pub domain : Option String
  pub salesforce_id : Option String
  pub hubspot_id : Option String
  pub merge_account_id : Option String
  pub industry : Option String
  pub employee_count : Option ℕ
  pub annual_revenue : Option ℕ

pub record Contact : Type 0 where
  pub id : String
  pub account_id : String
  pub email : String

pub record CallParticipant : Type 0 where
  pub id : String
  pub contact_id : Option String

pub record Story : Type 0 where
  pub id : String
  pub account_id : String

-- `account` is `onDelete: Cascade`
pub record Quote : Type 0 where
  pub id : String
  pub story_id : String
  pub account_id : String

pub record LandingPage : Type 0 where
  pub id : String
  pub organization_id : String
  pub story_id : String

pub record SalesforceEvent : Type 0 where
  pub id : String
  pub account_id : String
  pub opportunity_id : Option String
  pub stage_name : Option String

pub record AccountDomain : Type 0 where
  pub id : String
  pub account_id : String
  pub domain : String

pub record StoryRegenLog : Type 0 where
  pub id : String
  pub account_id : String

-- `mergePreview`: what `undoMerge` reads of the secondary account's preview
pub record Snapshot : Type 0 where
  pub id : String
  pub name : String
  pub domain : Option String
  pub industry : Option String
  pub employee_count : Option ℕ
  pub annual_revenue : Option ℕ

pub data RunStatus : Type 0 where
  completed undone : RunStatus

pub record AccountMergeRun : Type 0 where
  pub id : String
  pub organization_id : String
  pub primary_account_id : String
  pub secondary_account_id : String
  pub status : RunStatus
  pub secondary : Snapshot
  pub moved_contact_ids : List String
  pub moved_call_ids : List String
  pub moved_story_ids : List String
  pub moved_landing_page_ids : List String

pub record Database : Type 0 where
  pub accounts : List Account
  pub contacts : List Contact
  pub participants : List CallParticipant
  pub calls : List Call
  pub stories : List Story
  pub quotes : List Quote
  pub pages : List LandingPage
  pub events : List SalesforceEvent
  pub grants : List Grant
  pub domains : List AccountDomain
  pub regen_logs : List StoryRegenLog
  pub runs : List AccountMergeRun

-- `account.findFirst` by id and organization
abbrev pub find_account : (organization_id id : String) → Database → Option Account
find_account organization_id id db =
    find (λ a. a.id == id && a.organization_id == organization_id) db.accounts

-- The value is there, or the error is thrown.
abbrev pub required : {A : Type 0} → String → Option A → Result A
required message none = throw message
required message (some a) = ok a

-- another account of the organization with the same Salesforce id; `null`s do not clash
abbrev pub same_salesforce_id : Account → Account → Bool
same_salesforce_id account other = elim account.salesforce_id [
  | none ↦ false
  | some s ↦
      not (other.id == account.id)
      && other.organization_id == account.organization_id
      && opt_eq other.salesforce_id (some s)
]

-- `account.update`, under `@@unique([organizationId, salesforceId])`; the domain is not written
unfoldable pub update_account : Account → Database → Result Database
update_account account db =
    if any (same_salesforce_id account) db.accounts
    then throw "Unique constraint failed"
    else ok
        (record db { accounts = update_where (λ a. a.id == account.id) (λ a. account) db.accounts })

-- a required relation without `onDelete` restricts
abbrev pub is_referred_to : String → Database → Bool
is_referred_to id db =
    any (λ c. c.account_id == id) db.contacts
    || any (λ s. s.account_id == id) db.stories
    || any (λ e. e.account_id == id) db.events
    || any (λ l. l.account_id == id) db.regen_logs

-- `accountId` of a grant, which is set to `null` with the account
abbrev pub set_grant_account : Option String → Grant → Grant
set_grant_account o g = record g { row = record (g.row) { account_id = o } }

-- `account.delete`, with the rows that go or are cleared with it
unfoldable pub delete_account : String → Database → Result Database
delete_account id db =
    if is_referred_to id db
    then throw "Foreign key constraint violated"
    else ok (record db {
      accounts = select (λ a. not (a.id == id)) db.accounts;
      quotes = select (λ q. not (q.account_id == id)) db.quotes;
      domains = select (λ d. not (d.account_id == id)) db.domains;
      calls =
          update_where (λ c. opt_eq c.account_id (some id)) (λ c. record c { account_id = none })
            db.calls;
      grants = update_where (λ g. opt_eq g.account_id (some id)) (set_grant_account none) db.grants;
    })
