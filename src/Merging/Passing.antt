-- ===== src/Merging/Passing.antt =====
-- The steps of `executeMerge` (src/services/account-merge.ts) under the conditions that let each of
-- them pass.
use webappv.Common.{
  String, ◌≡◌, refl, ◌∙◌, ap, Bool, true, false, ◌&&◌, List, ◌==◌, string_equality, any,
  update_where, any-update_where, ok, Bool-cases, both_ways, IsOk, >>=-IsOk, guard-ok, inl, inr,
}
use webappv.Merging.Database.{
  Account, Database, is_referred_to, same_salesforce_id, update_account, delete_account,
}
use webappv.Merging.Merge.{
  step_contacts, step_rows, step_events, events_clash, step_domains, has_crm_updates,
  with_crm_updates, step_crm, merge_rows,
}
use webappv.Merging.Contacts.{step_contacts-empty}
use webappv.Merging.Effect.{with_events}
use webappv.Merging.Moves.{step_contacts-forget, step_domains-forget}

pub second_false : (a b : Bool) → a ≡ true → (a && b) ≡ false → b ≡ false
second_false true b e h = h
second_false false b e h = cc

module _ (primary_id secondary_id : String) where
  -- Nothing refers to the secondary account once its contacts, stories and events have moved.
  unreferred :
      (db db' : Database)
      → (primary_id == secondary_id) ≡ false
      → any (λ l. l.account_id == secondary_id) db.regen_logs ≡ false
      → db'.contacts ≡ (step_contacts primary_id secondary_id db).contacts
      → db'.stories
        ≡ update_where
            (λ s. s.account_id == secondary_id)
            (λ s. record s { account_id = primary_id })
            db.stories
      → db'.events
        ≡ update_where
            (λ e. e.account_id == secondary_id)
            (λ e. record e { account_id = primary_id })
            db.events
      → db'.regen_logs ≡ db.regen_logs
      → is_referred_to secondary_id db' ≡ false
  unreferred db db' apart logs c s e l = rw (
    c,
    step_contacts-empty primary_id secondary_id db
        (λ q. both_ways ((string_equality.beq_iff _ _).1 q) apart),
    s,
    any-update_where (λ s. s.account_id == secondary_id) (λ s. s.account_id == secondary_id)
        (λ s. record s { account_id = primary_id }) db.stories
        (λ s. elim (Bool-cases (s.account_id == secondary_id)) [
          | inl k ↦ rw k apart
          | inr k ↦ rw (k, k)
        ]),
    e,
    any-update_where (λ s. s.account_id == secondary_id) (λ s. s.account_id == secondary_id)
        (λ s. record s { account_id = primary_id }) db.events
        (λ s. elim (Bool-cases (s.account_id == secondary_id)) [
          | inl k ↦ rw k apart
          | inr k ↦ rw (k, k)
        ]),
    l,
    logs,
  )

  events_moved :
      (db : Database)
      → events_clash primary_id secondary_id db ≡ false
      → step_events primary_id secondary_id (step_rows primary_id secondary_id db)
        ≡ ok (with_events primary_id secondary_id db)
  unfolding step_events step_rows
  events_moved db free = rw free refl

  crm_updated :
      (primary secondary : Account) (db : Database)
      → (has_crm_updates primary secondary
          && any (same_salesforce_id (with_crm_updates primary secondary)) db.accounts)
        ≡ false
      → (accounts : List Account) × (step_crm primary secondary db
          ≡ ok (record db { accounts = accounts }))
  unfolding step_crm update_account
  crm_updated primary secondary db free = elim (Bool-cases (has_crm_updates primary secondary)) [
    | inl e ↦ (
      update_where (λ a. a.id == (with_crm_updates primary secondary).id)
          (λ a. with_crm_updates primary secondary) db.accounts,
      rw (e, second_false _ _ e free) refl,
    )
    | inr e ↦ (db.accounts, rw e refl)
  ]

  module _ (organization_id new_alias_id new_run_id : String) where
    pub merge_rows-IsOk :
        (primary secondary : Account) (db : Database)
        → (primary_id == secondary_id) ≡ false
        → events_clash primary_id secondary_id db ≡ false
        → any (λ l. l.account_id == secondary_id) db.regen_logs ≡ false
        → (has_crm_updates primary secondary
            && any (same_salesforce_id (with_crm_updates primary secondary)) db.accounts)
          ≡ false
        → IsOk (
            merge_rows organization_id primary_id secondary_id new_alias_id new_run_id primary
              secondary db)
    unfolding merge_rows step_rows delete_account
    merge_rows-IsOk primary secondary db apart events logs free =
        let contacts = step_contacts primary_id secondary_id db in
        let kept = step_contacts-forget primary_id secondary_id db in
        let moved = with_events primary_id secondary_id contacts in
        let aliased =
          (step_domains primary_id secondary_id new_alias_id primary secondary moved).0 in
        let kept' =
          step_domains-forget primary_id secondary_id new_alias_id primary secondary moved in
        let (accounts, updated) = crm_updated primary secondary aliased (
          ap
            (λ x.
              has_crm_updates primary secondary
              && any (same_salesforce_id (with_crm_updates primary secondary)) x)
            (ap (λ x. x.accounts) kept' ∙ ap (λ x. x.accounts) kept)
          ∙ free) in
        >>=-IsOk _ _
          (events_moved contacts (ap (λ x. events_clash primary_id secondary_id x) kept ∙ events))
          (>>=-IsOk _ _ updated (
            >>=-IsOk _ _
              (guard-ok _ _ _ (
                unreferred db (record aliased { accounts = accounts }) apart logs
                  (ap (λ x. x.contacts) kept')
                  (ap (λ x. x.stories) kept'
                    ∙ ap (λ x. (with_events primary_id secondary_id x).stories) kept)
                  (ap (λ x. x.events) kept'
                    ∙ ap (λ x. (with_events primary_id secondary_id x).events) kept)
                  (ap (λ x. x.regen_logs) kept' ∙ ap (λ x. x.regen_logs) kept)))
              (_, refl)))
