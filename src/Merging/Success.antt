-- ===== src/Merging/Success.antt =====
-- When `executeMerge` of src/services/account-merge.ts goes through, and when it cannot.
use webappv.Common.{
  String, ◌≡◌, refl, ◌∙◌, ap, sym, ◌↔◌, Bool, true, false, ◌&&◌, Option, none, some, arith, ◌==◌,
  string_equality, any, any_complete, ok, throw, Bool-cases, both_ways, IsOk, >>=-eq-ok, >>=-IsOk,
  guard-eq-ok, if◌then◌else◌, inl, inr,
}
use webappv.Merging.Database.{
  Account, Database, find_account, is_referred_to, same_salesforce_id, update_account,
  delete_account,
}
use webappv.Merging.Merge.{
  fills, or_truthy, step_rows, step_events, events_clash, step_domains, has_crm_updates,
  with_crm_updates, step_crm, merge_rows, merge_accounts, execute_merge,
}
use webappv.Merging.Effect.{
  same, found_account, step_events-eq-ok, step_crm-eq-ok, delete_account-eq-ok,
}
use webappv.Merging.Moves.{step_contacts-forget, step_domains-forget}
use webappv.Merging.Passing.{second_false, merge_rows-IsOk}

unlogged :
    (id : String) (db : Database)
    → is_referred_to id db ≡ false
    → any (λ l. l.account_id == id) db.regen_logs ≡ false
unlogged id db h = elim (Bool-cases (any (λ l. l.account_id == id) db.regen_logs)) [
  | inr e ↦ e
  | inl e ↦ ground (arith, h)
]

filled :
    (own other : Option String) (s : String)
    → own ≡ none
    → other ≡ some s
    → (s == "") ≡ false
    → (or_truthy own other ≡ some s) × (fills own other ≡ true)
filled none (some t) s p q e = (ground (arith, q, e), ground (arith, q, e))
filled none none s p q e = cc
filled (some x) other s p q e = cc

when_true : {A : Type 0} (b : Bool) (x y : A) {z : A} → b ≡ true → (if b then x else y) ≡ z → x ≡ z
when_true true x y e h = h
when_true false x y e h = cc

module _ (primary_id secondary_id : String) where
  module _ (organization_id new_alias_id new_run_id : String) where
    crm_free :
        (primary secondary : Account) (db : Database) {db' : Database}
        → step_crm primary secondary db ≡ ok db'
        → (has_crm_updates primary secondary
            && any (same_salesforce_id (with_crm_updates primary secondary)) db.accounts)
          ≡ false
    unfolding step_crm update_account
    crm_free primary secondary db h = elim (Bool-cases (has_crm_updates primary secondary)) [
      | inr e ↦ rw e
      | inl e ↦ rw e ((guard-eq-ok _ _ _ (when_true _ _ _ e h)).0)
    ]

    merge_rows-conditions :
        (primary secondary : Account) (db : Database)
        → IsOk (
            merge_rows organization_id primary_id secondary_id new_alias_id new_run_id primary
              secondary db)
        → (events_clash primary_id secondary_id db ≡ false)
          × (any (λ l. l.account_id == secondary_id) db.regen_logs ≡ false)
          × ((has_crm_updates primary secondary
                && any (same_salesforce_id (with_crm_updates primary secondary)) db.accounts)
              ≡ false)
    unfolding merge_rows step_rows step_events delete_account
    merge_rows-conditions primary secondary db (m, h) =
        let (moved, e, h₁) = >>=-eq-ok _ _ h in
        let (updated, u, h₂) = >>=-eq-ok _ _ h₁ in
        let (deleted, d, h₃) = >>=-eq-ok _ _ h₂ in
        let kept = step_contacts-forget primary_id secondary_id db in
        let at_moved = step_events-eq-ok primary_id secondary_id _ e in
        let kept' =
          step_domains-forget primary_id secondary_id new_alias_id primary secondary moved in
        let at_updated = step_crm-eq-ok primary_id secondary_id _ _ _ u in
        let aliased =
          (step_domains primary_id secondary_id new_alias_id primary secondary moved).0 in
        let same_accounts : db.accounts ≡ aliased.accounts = sym (
          ap (λ (x : Database). x.accounts) kept'
          ∙ ap (λ (x : Database). x.accounts) at_moved
          ∙ ap (λ (x : Database). x.accounts) kept) in
        let same_logs : db.regen_logs ≡ updated.regen_logs = sym (
          ap (λ (x : Database). x.regen_logs) at_updated
          ∙ ap (λ (x : Database). x.regen_logs) kept'
          ∙ ap (λ (x : Database). x.regen_logs) at_moved
          ∙ ap (λ (x : Database). x.regen_logs) kept) in
        (
          ap (λ x. events_clash primary_id secondary_id x) (sym kept) ∙ (guard-eq-ok _ _ _ e).0,
          ap (any (λ l. l.account_id == secondary_id)) same_logs
              ∙ unlogged secondary_id updated
                  (delete_account-eq-ok primary_id secondary_id secondary_id updated d).0,
          ap
                (λ x.
                  has_crm_updates primary secondary
                  && any (same_salesforce_id (with_crm_updates primary secondary)) x)
                same_accounts
              ∙ crm_free primary secondary aliased u,
        )

    execute_merge-eq :
        (db : Database) {primary secondary : Account}
        → find_account organization_id primary_id db ≡ some primary
        → find_account organization_id secondary_id db ≡ some secondary
        → execute_merge organization_id primary_id secondary_id new_alias_id new_run_id db ≡ (
            if primary_id == secondary_id
            then throw "Cannot merge an account with itself"
            else merge_accounts organization_id primary_id secondary_id new_alias_id new_run_id
                primary secondary db)
    unfolding execute_merge
    execute_merge-eq db found found' = rw (found, found') refl

    -- In terms of the tests that the steps make, a merge of two accounts of the organization goes
    -- through exactly if they are two accounts, no
    -- Salesforce event of one stands for the same stage of the same opportunity as one of the other,
    -- the secondary account has no entry in the log of regenerated stories, and the primary account
    -- gets no Salesforce id that another account of the organization, the secondary one included,
    -- has.
    pub execute_merge-IsOk :
        (db : Database) {primary secondary : Account}
        → find_account organization_id primary_id db ≡ some primary
        → find_account organization_id secondary_id db ≡ some secondary
        → IsOk (execute_merge organization_id primary_id secondary_id new_alias_id new_run_id db)
          ↔ (((primary_id == secondary_id) ≡ false)
              × (events_clash primary_id secondary_id db ≡ false)
              × (any (λ l. l.account_id == secondary_id) db.regen_logs ≡ false)
              × ((has_crm_updates primary secondary
                    && any (same_salesforce_id (with_crm_updates primary secondary)) db.accounts)
                  ≡ false))
    unfolding merge_accounts
    execute_merge-IsOk db {primary} {secondary} found found' = (
      λ (r, h).
          let (apart, h₁) = guard-eq-ok _ _ _ (sym (execute_merge-eq db found found') ∙ h) in
          let (m, merged, _) = >>=-eq-ok _ _ h₁ in
          let (events, logs, free) = merge_rows-conditions primary secondary db (m, merged) in
          (apart, events, logs, free),
      λ (apart, events, logs, free).
          let (m, merged) =
            merge_rows-IsOk primary_id secondary_id organization_id new_alias_id new_run_id primary
              secondary db apart events logs free in
          rw (execute_merge-eq db found found', apart) (>>=-IsOk _ _ merged (_, refl)),
    )

    -- A secondary account with a Salesforce id cannot be merged into a primary account without one:
    -- the id is written to the primary account before the secondary one is deleted, so that it is
    -- not unique.
    pub execute_merge-salesforce_id :
        (db : Database) {primary secondary : Account} (s : String)
        → find_account organization_id primary_id db ≡ some primary
        → find_account organization_id secondary_id db ≡ some secondary
        → primary.salesforce_id ≡ none
        → secondary.salesforce_id ≡ some s
        → (s == "") ≡ false
        → ¬ IsOk (execute_merge organization_id primary_id secondary_id new_alias_id new_run_id db)
    unfolding with_crm_updates
    execute_merge-salesforce_id db {primary} {secondary} s found found' p₀ s₀ given called =
        let (apart, _, _, free) = (execute_merge-IsOk db found found').0 called in
        let (_, at_primary, _) = found_account organization_id primary_id db found in
        let (here, at_secondary, owned') = found_account organization_id secondary_id db found' in
        let (_, _, owned) = found_account organization_id primary_id db found in
        let others : (secondary.id == primary.id) ≡ false =
          elim (Bool-cases (secondary.id == primary.id)) [
            | inr e ↦ e
            | inl e ↦
                both_ways
                  ((string_equality.beq_iff _ _).1
                    (sym at_primary ∙ sym ((string_equality.beq_iff _ _).0 e) ∙ at_secondary))
                  apart
          ] in
        let clash : same_salesforce_id (with_crm_updates primary secondary) secondary ≡ true =
          rw
            (
              (filled _ _ s p₀ s₀ given).0,
              others,
              s₀,
              same s,
              (string_equality.beq_iff _ _).1 (owned' ∙ sym owned),
            )
            refl in
        both_ways
          (any_complete (same_salesforce_id (with_crm_updates primary secondary)) here clash)
          (second_false (has_crm_updates primary secondary) _ (rw (filled _ _ s p₀ s₀ given).1)
            free)
