-- ===== src/Merging/Effect.antt =====
-- What a merge that goes through leaves in the tables: `executeMerge` of
-- src/services/account-merge.ts.
use webappv.Common.{
  both, String, ◌≡◌, refl, ◌∙◌, ap, sym, Bool, true, false, not, ◌&&◌, Option, none, some, List, [],
  ◌∷◌, ◌++◌, Memᴰ, arith, ◌==◌, string_equality, opt_eq, select, update_where, ok, throw,
  Bool-cases, find-mem, >>=-eq-ok, ok_injective, guard-eq-ok, if◌then◌else◌, inl, inr,
}
use webappv.Merging.Database.{
  Account, Database, update_account, delete_account, set_grant_account, find_account, required,
  is_referred_to,
}
use webappv.Merging.Merge.{
  step_rows, step_events, events_clash, step_crm, with_crm_updates, has_crm_updates, merge_run,
  merge_rows, merge_accounts, execute_merge, MergeResult,
}
use webappv.Merging.Moves.{
  forget_contacts, step_contacts-forget, forget_domains, step_domains-forget,
}

-- the tables that no loop of the merge changes
abbrev pub core : Database → Database
core db = forget_contacts (forget_domains db)

-- the tables after the deletion of an account
abbrev pub without : String → Database → Database
without id db = record db {
  accounts = select (λ a. not (a.id == id)) db.accounts;
  quotes = select (λ q. not (q.account_id == id)) db.quotes;
  domains = select (λ d. not (d.account_id == id)) db.domains;
  calls =
      update_where (λ c. opt_eq c.account_id (some id)) (λ c. record c { account_id = none })
        db.calls;
  grants = update_where (λ g. opt_eq g.account_id (some id)) (set_grant_account none) db.grants;
}

abbrev pub crm_accounts : Account → Account → List Account → List Account
crm_accounts primary secondary accounts =
    if has_crm_updates primary secondary
    then update_where (λ a. a.id == primary.id) (λ a. with_crm_updates primary secondary) accounts
    else accounts

required-eq-ok :
    {A : Type 0} (message : String) (o : Option A) {a : A} → required message o ≡ ok a → o ≡ some a
required-eq-ok message none h = cc
required-eq-ok message (some a) h = cc

pub same : (s : String) → (s == s) ≡ true
same s = (string_equality.beq_iff s s).1 refl

pub found_account :
    (organization_id id : String) (db : Database) {a : Account}
    → find_account organization_id id db ≡ some a
    → Memᴰ a db.accounts × (a.id ≡ id) × (a.organization_id ≡ organization_id)
found_account organization_id id db {a} h =
    let (m, t) = find-mem (λ x. x.id == id && x.organization_id == organization_id) db.accounts h in
    let (named, owned) = both (a.id == id) _ t in
    (m, (string_equality.beq_iff _ _).0 named, (string_equality.beq_iff _ _).0 owned)

module _ (primary_id secondary_id : String) where
  abbrev pub with_events : Database → Database
  with_events db = record (step_rows primary_id secondary_id db) {
    events =
        update_where (λ e. e.account_id == secondary_id) (λ e. record e { account_id = primary_id })
          db.events;
  }

  pub step_events-eq-ok :
      (db : Database) {db' : Database}
      → step_events primary_id secondary_id (step_rows primary_id secondary_id db) ≡ ok db'
      → db' ≡ with_events db
  unfolding step_events step_rows
  step_events-eq-ok db h =
      elim (Bool-cases
        (events_clash primary_id secondary_id (step_rows primary_id secondary_id db))) [
          | inl e ↦ cc
          | inr e ↦ ground arith
        ]

  written :
      (b refused : Bool) (accounts : List Account) (db : Database) {db' : Database}
      → (if b
          then (if refused
              then throw "Unique constraint failed"
              else ok (record db { accounts = accounts }))
          else ok db)
        ≡ ok db'
      → db' ≡ record db { accounts = if b then accounts else db.accounts }
  written true true accounts db h = cc
  written true false accounts db h = sym (ok_injective h)
  written false refused accounts db h = sym (ok_injective h)

  pub step_crm-eq-ok :
      (primary secondary : Account) (db : Database) {db' : Database}
      → step_crm primary secondary db ≡ ok db'
      → db' ≡ record db { accounts = crm_accounts primary secondary db.accounts }
  unfolding step_crm update_account with_crm_updates
  step_crm-eq-ok primary secondary db h = written (has_crm_updates primary secondary) _ _ db h

  pub delete_account-eq-ok :
      (id : String) (db : Database) {db' : Database}
      → delete_account id db ≡ ok db'
      → (is_referred_to id db ≡ false) × (db' ≡ without id db)
  unfolding delete_account
  delete_account-eq-ok id db h = elim (Bool-cases (is_referred_to id db)) [
    | inl e ↦ cc
    | inr e ↦ (e, sym (ok_injective (sym (rw e refl) ∙ h)))
  ]

  abbrev with_crm : Account → Account → Database → Database
  with_crm primary secondary db = record db {
    accounts = crm_accounts primary secondary db.accounts;
  }

  abbrev pub with_moves : Account → Account → Database → Database
  with_moves primary secondary db =
      without secondary_id (with_crm primary secondary (with_events db))

  module _ (organization_id new_alias_id new_run_id : String) where
    -- a merge that goes through, up to the tables of the loops
    pub merge_rows-core :
        (primary secondary : Account) (db : Database) {r : Database × List String}
        → merge_rows organization_id primary_id secondary_id new_alias_id new_run_id primary
            secondary db
          ≡ ok r
        → core r.0 ≡ core (with_moves primary secondary db)
    unfolding merge_rows step_rows
    merge_rows-core primary secondary db h =
        let (moved, e, h₁) = >>=-eq-ok _ _ h in
        let (updated, u, h₂) = >>=-eq-ok _ _ h₁ in
        let (deleted, d, h₃) = >>=-eq-ok _ _ h₂ in
        let finish : Database → Database =
          λ x. core (without secondary_id (with_crm primary secondary x)) in
        ap (λ x. core x.0) (sym (ok_injective h₃))
        ∙ ap core ((delete_account-eq-ok _ _ d).1)
        ∙ ap (λ x. core (without secondary_id x)) (step_crm-eq-ok _ _ _ u)
        ∙ ap finish
            (step_domains-forget primary_id secondary_id new_alias_id primary secondary moved)
        ∙ ap finish (step_events-eq-ok _ e)
        ∙ ap (λ x. finish (with_events x)) (step_contacts-forget primary_id secondary_id db)

    -- a merge that goes through: the two accounts, the tables and the run that is stored
    pub execute_merge-eq-ok :
        (db : Database) {r : Database × MergeResult}
        → execute_merge organization_id primary_id secondary_id new_alias_id new_run_id db ≡ ok r
        → (primary secondary : Account) × (find_account organization_id primary_id db
            ≡ some primary)
          × (find_account organization_id secondary_id db ≡ some secondary)
          × ((primary_id == secondary_id) ≡ false)
          × (core r.0
              ≡ core (record (with_moves primary secondary db) {
                runs =
                    db.runs
                    ++ merge_run organization_id primary_id secondary_id new_alias_id new_run_id
                        secondary db
                      ∷ [];
              }))
    unfolding execute_merge merge_accounts step_rows
    execute_merge-eq-ok db h =
        let (primary, found, h₁) = >>=-eq-ok _ _ h in
        let (secondary, found', h₂) = >>=-eq-ok _ _ h₁ in
        let (apart, h₃) = guard-eq-ok (primary_id == secondary_id) _ _ h₂ in
        let (m, merged, h₄) = >>=-eq-ok _ _ h₃ in
        (
          primary,
          secondary,
          required-eq-ok _ _ found,
          required-eq-ok _ _ found',
          apart,
          ap (λ x. core x.0) (sym (ok_injective h₄))
              ∙ ap {A = Database} {B = Database}
                  (λ x. record x {
                    runs =
                        x.runs
                        ++ merge_run organization_id primary_id secondary_id new_alias_id new_run_id
                            secondary db
                          ∷ [];
                  })
                  (merge_rows-core primary secondary db merged),
        )
