-- ===== src/Merging/RoundTrip.antt =====
-- src/services/account-merge.ts: `executeMerge`, and `undoMerge` after it.
use webappv.Common.{
  both, String, ◌≡◌, refl, ◌∙◌, ap, sym, true, false, not, ◌&&◌, ◌||◌, Option, none, some, List, [],
  ◌∷◌, ◌++◌, Memᴰ, arith, ◌==◌, string_equality, opt_eq, any, select, find, update_where,
  select-mem, any-false, ok, Bool-cases, subst, update_where-mem, restore_moved, find-append,
  both_ways, inl, inr, Option-cases,
}
use webappv.Setup.Wizard.{Call}
use webappv.Merging.Database.{
  Snapshot, completed, Account, Story, AccountMergeRun, Database, find_account,
}
use webappv.Merging.Merge.{
  is_of, snapshot, with_crm_updates, has_crm_updates, step_rows, merge_run, execute_merge,
  MergeResult,
}
use webappv.Merging.Undo.{
  restore_account, restored_account, create_account, same_domain, restore_rows, undo_run,
  undo_merge, undo_result, UndoResult, to_restore_call, to_restore_story,
}
use webappv.Merging.Outcome.{execute_merge-moves}
use webappv.Merging.Effect.{same, found_account, crm_accounts, execute_merge-eq-ok}

-- `@@unique([organizationId, domain])` of the accounts
abbrev pub HasUniqueDomains : Database → Type 0
HasUniqueDomains db =
    (a b : Account) (d : String)
    → Memᴰ a db.accounts
    → Memᴰ b db.accounts
    → a.organization_id ≡ b.organization_id
    → a.domain ≡ some d
    → b.domain ≡ some d
    → a.id ≡ b.id

-- the ids of the calls and of the stories are primary keys
abbrev pub HasKeys : Database → Type 0
HasKeys db =
    ((c d : Call) → Memᴰ c db.calls → Memᴰ d db.calls → c.id ≡ d.id → c ≡ d)
    × ((s t : Story) → Memᴰ s db.stories → Memᴰ t db.stories → s.id ≡ t.id → s ≡ t)

opt_eq-some : (o : Option String) (s : String) → opt_eq o (some s) ≡ true → o ≡ some s
opt_eq-some none s h = cc
opt_eq-some (some t) s h = ap some ((string_equality.beq_iff t s).0 h)

-- What an account of the database after the merge has from one before it.
kept_account :
    (primary secondary a : Account) (accounts : List Account)
    → Memᴰ primary accounts
    → Memᴰ a (crm_accounts primary secondary accounts)
    → (b : Account) × Memᴰ b accounts
      × (a.id ≡ b.id)
      × (a.organization_id ≡ b.organization_id)
      × (a.domain ≡ b.domain)
unfolding with_crm_updates
kept_account primary secondary a accounts here m =
    elim (Bool-cases (has_crm_updates primary secondary)) [
      | inr e ↦ (a, subst (λ xs. Memᴰ a xs) (rw e refl) m, refl, refl, refl)
      | inl e ↦
          elim (update_where-mem (λ x. x.id == primary.id) (λ x. with_crm_updates primary secondary)
            accounts (subst (λ xs. Memᴰ a xs) (rw e refl) m)) [
              | inl (n, _) ↦ (a, n, refl, refl, refl)
              | inr (b, n, t, q) ↦ (
                primary,
                here,
                ap (λ x. x.id) q,
                ap (λ x. x.organization_id) q,
                ap (λ x. x.domain) q,
              )
            ]
    ]

same_domain-eq :
    (account other : Account)
    → same_domain account other ≡ true
    → (d : String) × (account.domain ≡ some d)
      × (other.organization_id ≡ account.organization_id)
      × (other.domain ≡ some d)
same_domain-eq account other h = elim (Option-cases account.domain) [
  | inl n ↦ both_ways h (rw n refl)
  | inr (d, e) ↦
      let (owned, named) =
        both (other.organization_id == account.organization_id) (opt_eq other.domain (some d))
          (sym (rw e refl) ∙ h) in
      (d, e, (string_equality.beq_iff _ _).0 owned, opt_eq-some other.domain d named)
]

-- No account left after the merge is in the way of the restored one.
no_clash :
    (normalize : String → String) (organization_id : String) (primary secondary : Account)
    (db : Database)
    → Memᴰ primary db.accounts
    → Memᴰ secondary db.accounts
    → secondary.organization_id ≡ organization_id
    → HasUniqueDomains db
    → any
        (λ a.
          a.id == secondary.id
          || same_domain (restored_account normalize organization_id (snapshot secondary)) a)
        (select (λ a. not (a.id == secondary.id)) (crm_accounts primary secondary db.accounts))
      ≡ false
unfolding restored_account
no_clash normalize organization_id primary secondary db here here' owned unique =
    any-false _ _ (λ x m.
      let (n, t) = select-mem (λ a. not (a.id == secondary.id)) m in
      let (b, in_db, id_eq, org_eq, domain_eq) =
        kept_account primary secondary x db.accounts here n in
      let other : (x.id == secondary.id) ≡ false = ground (arith, t) in
      elim (Bool-cases
        (same_domain (restored_account normalize organization_id (snapshot secondary)) x)) [
          | inr e ↦ rw (other, e)
          | inl e ↦
              let (d, own, org, named) =
                same_domain-eq (restored_account normalize organization_id (snapshot secondary)) x
                  e in
              both_ways
                ((string_equality.beq_iff _ _).1 (
                  id_eq
                  ∙ unique b secondary d in_db here' (sym org_eq ∙ org ∙ sym owned)
                      (sym domain_eq ∙ named) own))
                other
        ])

abbrev with_account : Account → Database → Database
with_account a db = record db { accounts = db.accounts ++ a ∷ [] }

module _ (normalize : String → String) (organization_id : String) where
  restored_at :
      (db : Database) (s : Snapshot)
      → find_account organization_id s.id db ≡ none
      → any
          (λ a. a.id == s.id || same_domain (restored_account normalize organization_id s) a)
          db.accounts
        ≡ false
      → restore_account normalize organization_id s db
        ≡ ok (with_account (restored_account normalize organization_id s) db)
  unfolding restore_account create_account restored_account
  restored_at db s n a = rw (restore_account, n, create_account, a) refl

  undo_merge-eq :
      (run_id : String) (run : AccountMergeRun) (db : Database)
      → find (λ r. r.id == run_id && r.organization_id == organization_id) db.runs ≡ some run
      → run.status ≡ completed
      → find_account organization_id run.secondary.id db ≡ none
      → any
          (λ a.
            a.id == run.secondary.id
            || same_domain (restored_account normalize organization_id run.secondary) a)
          db.accounts
        ≡ false
      → undo_merge normalize organization_id run_id db
        ≡ ok (
          restore_rows run
              (with_account (restored_account normalize organization_id run.secondary) db),
          undo_result run
              (with_account (restored_account normalize organization_id run.secondary) db),
        )
  unfolding undo_merge undo_run restore_rows
  undo_merge-eq run_id run db f c n a = rw (f, c, undo_run, restored_at db run.secondary n a) refl

  -- Undoing a merge directly after it succeeds, and gives every call and every story its account back:
  -- where the ids of the calls and of the stories are keys, no two accounts of an organization have
  -- the same domain, and no earlier run has the id of this one. Of the secondary account what comes
  -- back is its id, name, domain, industry and sizes.
  pub undo-execute_merge :
      (primary_id secondary_id new_alias_id new_run_id : String) (db : Database)
      {r : Database × MergeResult}
      → HasKeys db
      → HasUniqueDomains db
      → any (λ r. r.id == new_run_id && r.organization_id == organization_id) db.runs ≡ false
      → execute_merge organization_id primary_id secondary_id new_alias_id new_run_id db ≡ ok r
      → (u : Database × UndoResult) × (undo_merge normalize organization_id new_run_id r.0 ≡ ok u)
        × (u.0.calls ≡ db.calls)
        × (u.0.stories ≡ db.stories)
        × (s : Account) × (find_account organization_id secondary_id db ≡ some s)
        × (u.0.accounts
            ≡ r.0.accounts ++ restored_account normalize organization_id (snapshot s) ∷ [])
  unfolding merge_run restore_rows step_rows
  undo-execute_merge primary_id secondary_id new_alias_id new_run_id db {r} keys unique new h =
      let (primary, secondary, found, found', apart, same_core) =
        execute_merge-eq-ok primary_id secondary_id organization_id new_alias_id new_run_id db h in
      let run =
        merge_run organization_id primary_id secondary_id new_alias_id new_run_id secondary db in
      let (gone, stories, calls, _, _, _, _) =
        execute_merge-moves organization_id primary_id secondary_id new_alias_id new_run_id db h in
      let (here, _, _) = found_account organization_id primary_id db found in
      let (here', named, owned) = found_account organization_id secondary_id db found' in
      let at_run : find (λ r. r.id == new_run_id && r.organization_id == organization_id) r.0.runs
          ≡ some run =
        ap (λ x. find (λ r. r.id == new_run_id && r.organization_id == organization_id) x.runs)
          same_core
        ∙ find-append _ db.runs (run ∷ []) new
        ∙ rw (same new_run_id, same organization_id) refl in
      let fresh = no_clash normalize organization_id primary secondary db here here' owned unique in
      (
        _,
        undo_merge-eq new_run_id run r.0 at_run refl (rw named gone) (
            ap (any _) (
              ap (λ x. x.accounts) same_core
              ∙ ap (λ s. select (λ a. not (a.id == s)) (crm_accounts primary secondary db.accounts))
                  (sym named))
            ∙ fresh),
        ap (update_where (to_restore_call run) _) calls
            ∙ restore_moved (λ c. c.id) (is_of secondary_id) (is_of primary_id) _ _ db.calls
                (keys.0) (λ c. (refl, same primary_id))
                (λ c e.
                  ap (λ o. record c { account_id = o })
                    (sym (opt_eq-some c.account_id secondary_id e))),
        ap (update_where (to_restore_story run) _) stories
            ∙ restore_moved (λ c. c.id) (λ s. s.account_id == secondary_id)
                (λ s. s.account_id == primary_id) _ _ db.stories (keys.1)
                (λ c. (refl, same primary_id))
                (λ c e.
                  ap (λ o. record c { account_id = o }) (sym ((string_equality.beq_iff _ _).0 e))),
        secondary,
        found',
        refl,
      )
