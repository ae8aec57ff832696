-- ===== src/Merging/Contacts.antt =====
-- The loop over the secondary account's contacts in `executeMerge` (src/services/account-merge.ts).
use webappv.Common.{
  String, ◌≡◌, refl, ◌∙◌, ap, sym, subst, ◌≢◌, false, not, List, [], ◌∷◌, map, Memᴰ, arith, ◌==◌,
  string_equality, any, includes, select, update_where, update_where-mem, select-mem, mem-select,
  mem-map, any-false, Bool-cases, both_ways, inl, inr,
}
use webappv.Merging.Database.{Contact, Database}
use webappv.Merging.Merge.{move_contact, move_contacts, step_contacts}

module _ (primary_id secondary_id : String) where
  -- the contacts that the loop still has to come to
  abbrev AreLeft : List Contact → Database → Type 0
  AreLeft contacts db =
      (c : Contact)
      → Memᴰ c db.contacts
      → c.account_id ≡ secondary_id
      → Memᴰ c.id (map (λ d. d.id) contacts)

  not_first : (x y : String) {ids : List String} → (x == y) ≡ false → Memᴰ x (y ∷ ids) → Memᴰ x ids
  not_first x y n (Memᴰ.head e) = both_ways ((string_equality.beq_iff x y).1 e) n
  not_first x y n (Memᴰ.tail m) = m

  move_contact-AreLeft :
      (emails : List String) (c : Contact) (contacts : List Contact) (db : Database)
      → primary_id ≢ secondary_id
      → AreLeft (c ∷ contacts) db
      → AreLeft contacts (move_contact primary_id secondary_id emails c db)
  unfolding move_contact
  move_contact-AreLeft emails c contacts db apart left d m e =
      elim (Bool-cases (includes emails c.email)) [
        | inl t ↦
            let (n, k) =
              select-mem (λ x. not (x.id == c.id))
                (subst (λ xs. Memᴰ d xs) {y = select (λ x. not (x.id == c.id)) db.contacts}
                  (rw t refl) m) in
            not_first d.id c.id (ground (arith, k)) (left d n e)
        | inr t ↦
            elim (update_where-mem (λ x. x.id == c.id) (λ x. record x { account_id = primary_id })
              db.contacts
              (subst (λ xs. Memᴰ d xs)
                {y = update_where (λ x. x.id == c.id) (λ x. record x { account_id = primary_id })
                  db.contacts}
                (rw t refl) m)) [
                  | inl (n, k) ↦ not_first d.id c.id k (left d n e)
                  | inr (_, _, _, q) ↦ absurd (apart (sym (ap (λ x. x.account_id) q) ∙ e))
                ]
      ]

  move_contacts-AreLeft :
      (emails : List String) (contacts : List Contact) (db : Database)
      → primary_id ≢ secondary_id
      → AreLeft contacts db
      → AreLeft [] (move_contacts primary_id secondary_id emails contacts db)
  unfolding move_contacts
  move_contacts-AreLeft emails [] db apart left = left
  move_contacts-AreLeft emails (c ∷ contacts) db apart left =
      move_contacts-AreLeft emails contacts _ apart
        (move_contact-AreLeft emails c contacts db apart left)

  -- After the loop over the contacts of the secondary account it has none.
  pub step_contacts-empty :
      (db : Database)
      → primary_id ≢ secondary_id
      → any (λ c. c.account_id == secondary_id) (step_contacts primary_id secondary_id db).contacts
        ≡ false
  unfolding step_contacts
  step_contacts-empty db apart =
      any-false (λ c. c.account_id == secondary_id) _
        (λ c m. elim (Bool-cases (c.account_id == secondary_id)) [
          | inr e ↦ e
          | inl e ↦
              elim (move_contacts-AreLeft _ (select (λ c. c.account_id == secondary_id) db.contacts)
                db apart
                (λ d n q. mem-map (λ x. x.id) (mem-select _ n ((string_equality.beq_iff _ _).1 q)))
                c m ((string_equality.beq_iff _ _).0 e)) [ ]
        ])
