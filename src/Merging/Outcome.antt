-- ===== src/Merging/Outcome.antt =====
-- The tables after `executeMerge` of src/services/account-merge.ts.
use webappv.Common.{
  String, ◌≡◌, ◌∙◌, ap, Bool, not, ◌&&◌, none, some, arith, ◌==◌, string_equality, opt_eq, select,
  update_where, update_where-apart, find-select, ok, Bool-cases, inl, inr,
}
use webappv.Access.Schema.{Grant}
use webappv.Merging.Database.{Database, find_account, set_grant_account}
use webappv.Merging.Merge.{is_of, step_rows, execute_merge, MergeResult}
use webappv.Merging.Effect.{crm_accounts, execute_merge-eq-ok}

abbrev is_granted : String → Grant → Bool
is_granted id g = opt_eq g.account_id (some id)

module _ (organization_id primary_id secondary_id new_alias_id new_run_id : String) where
  -- A merge that goes through removes the secondary account and its quotes, makes the primary
  -- account the account of its stories, calls, Salesforce events and single-account grants, and
  -- leaves the other rows of these tables, and the landing pages, as they are.
  pub execute_merge-moves :
      (db : Database) {r : Database × MergeResult}
      → execute_merge organization_id primary_id secondary_id new_alias_id new_run_id db ≡ ok r
      → (find_account organization_id secondary_id r.0 ≡ none)
        × (r.0.stories
            ≡ update_where
                (λ s. s.account_id == secondary_id)
                (λ s. record s { account_id = primary_id })
                db.stories)
        × (r.0.calls
            ≡ update_where
                (is_of secondary_id)
                (λ c. record c { account_id = some primary_id })
                db.calls)
        × (r.0.events
            ≡ update_where
                (λ e. e.account_id == secondary_id)
                (λ e. record e { account_id = primary_id })
                db.events)
        × (r.0.grants
            ≡ update_where
                (λ g. opt_eq g.account_id (some secondary_id))
                (set_grant_account (some primary_id))
                db.grants)
        × (r.0.quotes ≡ select (λ q. not (q.account_id == secondary_id)) db.quotes)
        × (r.0.pages ≡ db.pages)
  unfolding step_rows
  execute_merge-moves db h =
      let (primary, secondary, found, found', apart, same) =
        execute_merge-eq-ok primary_id secondary_id organization_id new_alias_id new_run_id db h in
      (
        ap (λ x. find_account organization_id secondary_id x) same
            ∙ find-select (λ a. a.id == secondary_id && a.organization_id == organization_id)
                (λ a. not (a.id == secondary_id)) (crm_accounts primary secondary db.accounts)
                (λ x e. ground arith),
        ap (λ x. x.stories) same,
        ap (λ x. x.calls) same
            ∙ update_where-apart (is_of secondary_id) (is_of secondary_id) _ _ db.calls (λ c.
              elim (Bool-cases (is_of secondary_id c)) [ inl e ↦ rw e apart | inr e ↦ rw (e, e) ]),
        ap (λ x. x.events) same,
        ap (λ x. x.grants) same
            ∙ update_where-apart (is_granted secondary_id) (is_granted secondary_id) _ _ db.grants
                (λ g. elim (Bool-cases (is_granted secondary_id g)) [
                  | inl e ↦ rw e apart
                  | inr e ↦ rw (e, e)
                ]),
        ap (λ x. x.quotes) same,
        ap (λ x. x.pages) same,
      )
