-- ===== src/Merging/Moves.antt =====
-- What `executeMerge` of src/services/account-merge.ts does to each table, step by step.
use webappv.Common.{
  String, ◌≡◌, refl, ◌∙◌, inl, inr, ◌||◌, Option, none, some, List, [], ◌∷◌, string_equality,
  opt_eq, includes, truthy, Bool-cases,
}
use webappv.Merging.Database.{Account, Contact, AccountDomain, Database}
use webappv.Merging.Merge.{
  move_contact, move_contacts, step_contacts, has_alias, add_domain, move_aliases, step_domains,
}

-- a database without the tables that the steps 1 and 7 change
abbrev pub forget_contacts : Database → Database
forget_contacts db = record db { contacts = []; participants = [] }

abbrev pub forget_domains : Database → Database
forget_domains db = record db { domains = [] }

module _ (primary_id secondary_id : String) where
  move_contacts-forget :
      (emails : List String) (contacts : List Contact) (db : Database)
      → forget_contacts (move_contacts primary_id secondary_id emails contacts db)
        ≡ forget_contacts db
  unfolding move_contacts move_contact
  move_contacts-forget emails [] db = refl
  move_contacts-forget emails (c ∷ contacts) db = elim (Bool-cases (includes emails c.email)) [
    | inl e ↦ move_contacts-forget emails contacts _ ∙ rw e refl
    | inr e ↦ move_contacts-forget emails contacts _ ∙ rw e refl
  ]

  pub step_contacts-forget :
      (db : Database)
      → forget_contacts (step_contacts primary_id secondary_id db) ≡ forget_contacts db
  unfolding step_contacts
  step_contacts-forget db = move_contacts-forget _ _ db

  add_domain-forget :
      (new_alias_id : String) (own other : Option String) (db : Database)
      → forget_domains (add_domain primary_id secondary_id new_alias_id own other db).0
        ≡ forget_domains db
  unfolding add_domain
  add_domain-forget new_alias_id own none db = refl
  add_domain-forget new_alias_id own (some d) db =
      elim (Bool-cases (opt_eq own (some d) || has_alias primary_id secondary_id d db)) [
        | inl e ↦ rw e refl
        | inr e ↦ rw e refl
      ]

  move_aliases-forget :
      (own : Option String) (aliases : List AccountDomain) (db : Database)
      → forget_domains (move_aliases primary_id secondary_id own aliases db).0 ≡ forget_domains db
  unfolding move_aliases
  move_aliases-forget own [] db = refl
  move_aliases-forget own (a ∷ aliases) db =
      elim (Bool-cases
        (opt_eq own (some a.domain) || has_alias primary_id secondary_id a.domain db)) [
          | inl e ↦ rw e (move_aliases-forget own aliases _)
          | inr e ↦ rw e (move_aliases-forget own aliases _)
        ]

  pub step_domains-forget :
      (new_alias_id : String) (primary secondary : Account) (db : Database)
      → forget_domains (step_domains primary_id secondary_id new_alias_id primary secondary db).0
        ≡ forget_domains db
  unfolding step_domains
  step_domains-forget new_alias_id primary secondary db =
      move_aliases-forget primary.domain _ _
      ∙ add_domain-forget new_alias_id primary.domain (truthy secondary.domain) db
