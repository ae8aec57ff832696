-- ===== src/Merging/Tests.antt =====
-- A merge of two accounts on a small database, and the theorems on it.
use webappv.Common.{
  Option, ap, ◌∙◌, String, ◌≡◌, refl, ◌∙◌, ap, sym, ◌↔◌, Bool, true, not, ◌&&◌, none, some, List,
  [], ◌∷◌, ◌++◌, map, Memᴰ, arith, ◌==◌, string_equality, opt_eq, includes, includes_iff, select,
  mem-map, both_ways, subst, update_where, Result, ok, throw, IsOk,
}
use webappv.Merging.Database.{
  update_account, delete_account, Account, Database, find_account, set_grant_account,
}
use webappv.Merging.Merge.{
  is_of, with_crm_updates, snapshot, execute_merge, MergeResult, merge_accounts, merge_rows,
  step_contacts, move_contacts, move_contact, step_rows, step_events, step_domains, add_domain,
  move_aliases, step_crm, merge_run,
}
use webappv.Merging.Undo.{UndoResult, restored_account, undo_merge}
use webappv.Merging.Outcome.{execute_merge-moves}
use webappv.Merging.Mergeable.{HasUniqueIds, CanMerge, execute_merge-IsOk_iff}
use webappv.Merging.Success.{execute_merge-salesforce_id}
use webappv.Merging.RoundTrip.{HasKeys, HasUniqueDomains, undo-execute_merge}

abbrev acme : Account
acme = record {
  id = "a1";
  organization_id = "o1";
  name = "Acme";
  normalized_name = "acme";
  domain = some "acme.com";
  salesforce_id = some "sf1";
  hubspot_id = none;
  merge_account_id = none;
  industry = none;
  employee_count = none;
  annual_revenue = none;
}

abbrev acme_io : Account
acme_io = record {
  id = "a2";
  organization_id = "o1";
  name = "Acme Inc";
  normalized_name = "acme";
  domain = some "acme.io";
  salesforce_id = none;
  hubspot_id = some "hub2";
  merge_account_id = none;
  industry = some "Tools";
  employee_count = some 40;
  annual_revenue = none;
}

abbrev database : Database
database = record {
  accounts = acme ∷ acme_io ∷ [];
  contacts =
      record { id = "p1"; account_id = "a1"; email = "ann@acme.com" }
      ∷ record { id = "p2"; account_id = "a2"; email = "ann@acme.com" }
      ∷ record { id = "p3"; account_id = "a2"; email = "bob@acme.io" }
      ∷ [];
  participants = record { id = "q1"; contact_id = some "p2" } ∷ [];
  calls =
      record { id = "c1"; account_id = some "a1" }
      ∷ record { id = "c2"; account_id = some "a2" }
      ∷ [];
  stories = record { id = "s1"; account_id = "a2" } ∷ record { id = "s2"; account_id = "a1" } ∷ [];
  quotes = record { id = "t1"; story_id = "s1"; account_id = "a2" } ∷ [];
  pages = record { id = "l1"; organization_id = "o1"; story_id = "s1" } ∷ [];
  events =
      record { id = "e1"; account_id = "a2"; opportunity_id = some "d1"; stage_name = some "Won" }
      ∷ [];
  grants = [];
  domains = record { id = "m1"; account_id = "a2"; domain = "acme.dev" } ∷ [];
  regen_logs = [];
  runs = [];
}

abbrev after : Result (Database × MergeResult)
after = execute_merge "o1" "a1" "a2" "m2" "r1" database

abbrev merged : Database × MergeResult
merged = elim after [
  | ok r ↦ r
  | throw m ↦ (
    database,
    record {
      merge_run_id = "";
      contacts_moved = 0;
      calls_moved = 0;
      stories_moved = 0;
      landing_pages_moved = 0;
      domain_aliases_added = [];
    },
  )
]

after_ok : after ≡ ok merged
unfolding execute_merge merge_accounts merge_rows step_contacts move_contacts move_contact step_rows
    step_events step_domains add_domain move_aliases step_crm update_account delete_account
    with_crm_updates merge_run
after_ok = refl

merged_result :
    (merged.1.contacts_moved ≡ 1)
    × (merged.1.domain_aliases_added ≡ "acme.io" ∷ "acme.dev" ∷ [])
    × (merged.0.quotes ≡ [])
unfolding execute_merge merge_accounts merge_rows step_contacts move_contacts move_contact step_rows
    step_events step_domains add_domain move_aliases step_crm update_account delete_account
    with_crm_updates merge_run
merged_result = (refl, refl, refl)

-- Different keys, one row for each.
abbrev distinct : List String → Bool
distinct [] = true
distinct (x ∷ xs) = not (includes xs x) && distinct xs

unique_keys :
    {A : Type 0} (key : A → String) (xs : List A)
    → distinct (map key xs) ≡ true
    → (x y : A) → Memᴰ x xs
    → Memᴰ y xs
    → key x ≡ key y
    → x ≡ y
unique_keys key [] h x y m n e = elim m [ ]
unique_keys key (z ∷ xs) h x y (Memᴰ.head p) (Memᴰ.head q) e = p ∙ sym q
unique_keys key (z ∷ xs) h x y (Memᴰ.tail m) (Memᴰ.tail n) e =
    unique_keys key xs (ground (arith, h)) x y m n e
unique_keys key (z ∷ xs) h x y (Memᴰ.head p) (Memᴰ.tail n) e =
    both_ways
      ((includes_iff (map key xs) (key z)).1
        (subst (λ k. Memᴰ k (map key xs)) (sym e ∙ ap key p) (mem-map key n)))
      (ground (arith, h))
unique_keys key (z ∷ xs) h x y (Memᴰ.tail m) (Memᴰ.head q) e =
    both_ways
      ((includes_iff (map key xs) (key z)).1
        (subst (λ k. Memᴰ k (map key xs)) (e ∙ ap key q) (mem-map key m)))
      (ground (arith, h))

database-HasKeys : HasKeys database
database-HasKeys =
    (unique_keys (λ c. c.id) database.calls refl, unique_keys (λ s. s.id) database.stories refl)

other_domain : {X : Type 0} {d : String} → acme.domain ≡ some d → acme_io.domain ≡ some d → X
other_domain e f =
    both_ways {b = opt_eq acme.domain (some "acme.io")}
      (ap (λ o. opt_eq o (some "acme.io")) (e ∙ sym f)) refl

database-HasUniqueDomains : HasUniqueDomains database
database-HasUniqueDomains a b d (Memᴰ.head p) (Memᴰ.head q) o e f = ap (λ x. x.id) (p ∙ sym q)
database-HasUniqueDomains a b d (Memᴰ.head p) (Memᴰ.tail (Memᴰ.head q)) o e f =
    other_domain (ap (λ x. x.domain) (sym p) ∙ e) (ap (λ x. x.domain) (sym q) ∙ f)
database-HasUniqueDomains a b d (Memᴰ.tail (Memᴰ.head p)) (Memᴰ.head q) o e f =
    other_domain (ap (λ x. x.domain) (sym q) ∙ f) (ap (λ x. x.domain) (sym p) ∙ e)
database-HasUniqueDomains a b d (Memᴰ.tail (Memᴰ.head p)) (Memᴰ.tail (Memᴰ.head q)) o e f =
    ap (λ x. x.id) (p ∙ sym q)
database-HasUniqueDomains a b d (Memᴰ.tail (Memᴰ.tail m)) n o e f = elim m [ ]
database-HasUniqueDomains a b d m (Memᴰ.tail (Memᴰ.tail n)) o e f = elim n [ ]

abbrev same_text : String → String
same_text s = s

undo-execute_merge_example :
    (u : Database × UndoResult) × (undo_merge same_text "o1" "r1" merged.0 ≡ ok u)
    × (u.0.calls ≡ database.calls)
    × (u.0.stories ≡ database.stories)
    × (s : Account) × (find_account "o1" "a2" database ≡ some s)
    × (u.0.accounts ≡ merged.0.accounts ++ restored_account same_text "o1" (snapshot s) ∷ [])
undo-execute_merge_example =
    undo-execute_merge same_text "o1" "a1" "a2" "m2" "r1" database database-HasKeys
      database-HasUniqueDomains refl after_ok

execute_merge-moves_example :
    (find_account "o1" "a2" merged.0 ≡ none)
    × (merged.0.stories
        ≡ update_where
            (λ s. s.account_id == "a2")
            (λ s. record s { account_id = "a1" })
            database.stories)
    × (merged.0.calls
        ≡ update_where (is_of "a2") (λ c. record c { account_id = some "a1" }) database.calls)
    × (merged.0.events
        ≡ update_where
            (λ e. e.account_id == "a2")
            (λ e. record e { account_id = "a1" })
            database.events)
    × (merged.0.grants
        ≡ update_where
            (λ g. opt_eq g.account_id (some "a2"))
            (set_grant_account (some "a1"))
            database.grants)
    × (merged.0.quotes ≡ select (λ q. not (q.account_id == "a2")) database.quotes)
    × (merged.0.pages ≡ database.pages)
execute_merge-moves_example = execute_merge-moves "o1" "a1" "a2" "m2" "r1" database after_ok

no_text : {s : String} → ◌≡◌ {A = Option String} none (some s) → ⊥
no_text h = cc

unique_ids : HasUniqueIds database
unique_ids a b s (Memᴰ.head e) (Memᴰ.head f) o h k = ap (λ x. x.id) (e ∙ sym f)
unique_ids a b s (Memᴰ.head e) (Memᴰ.tail (Memᴰ.head f)) o h k =
    absurd (no_text (ap (λ x. x.salesforce_id) (sym f) ∙ k))
unique_ids a b s (Memᴰ.head e) (Memᴰ.tail (Memᴰ.tail m)) o h k = elim m [ ]
unique_ids a b s (Memᴰ.tail (Memᴰ.head e)) m o h k =
    absurd (no_text (ap (λ x. x.salesforce_id) (sym e) ∙ h))
unique_ids a b s (Memᴰ.tail (Memᴰ.tail n)) m o h k = elim n [ ]

execute_merge-IsOk_iff_example :
    IsOk (execute_merge "o1" "a1" "a2" "m2" "r1" database) ↔ CanMerge acme acme_io database
execute_merge-IsOk_iff_example =
    execute_merge-IsOk_iff "o1" "m2" "r1" database {primary = acme} {secondary = acme_io} unique_ids
      refl refl

-- The other way round, the primary account lacks the Salesforce id that the secondary has.
execute_merge-salesforce_id_example : ¬ IsOk (execute_merge "o1" "a2" "a1" "m2" "r1" database)
execute_merge-salesforce_id_example =
    execute_merge-salesforce_id "a2" "a1" "o1" "m2" "r1" database "sf1" refl refl refl refl refl
