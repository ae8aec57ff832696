-- ===== src/Access/Accounts/Laws.antt =====
-- What a user's grants give: `canAccessAccount` and `getAccessibleAccountIds` of
-- src/services/account-access.ts.
use text.Mathlib.TextEquality.{eq_iff}
use webappv.Common.{
  String, ◌≡◌, refl, ◌≢◌, ◌↔◌, ◌⊎◌, inl, inr, Bool, true, ◌||◌, Option, none, some, List, [], ◌∷◌,
  ◌++◌, Memᴰ, arith, if◌then◌else◌, ◌==◌, string_equality, includes, includes_iff, opt_eq, truthy,
  Bool-cases, Result, ok, throw, ◌>>=◌, >>=-eq-ok,
}
use webappv.Access.Roles.{
  UserRole, AccountScopeType, all_accounts, single_account, account_list, crm_report, is_admin,
}
use webappv.Access.Schema.{Grant}
use webappv.Access.Accounts.{
  scope_covers, any_grant_covers, add_id, add_ids, scope_ids, id_list, collect_ids,
  can_access_account, get_accessible_account_ids,
}

-- When a grant covers an account, by its scope.
pub data Covers (g : Grant) (account_id : String) : Type 0 where
  everything : g.scope_type ≡ all_accounts → Covers g account_id
  one : g.scope_type ≡ single_account → g.account_id ≡ some account_id → Covers g account_id
  listed : g.scope_type ≡ account_list → Memᴰ account_id g.cached_account_ids → Covers g account_id
  reported : g.scope_type ≡ crm_report → Memᴰ account_id g.cached_account_ids → Covers g account_id

opt_eq-some : (o : Option String) (a : String) → opt_eq o (some a) ≡ true → o ≡ some a
opt_eq-some none a h = cc
opt_eq-some (some b) a h = ground (arith, eq_iff b a)

scope_sound :
    (s : AccountScopeType) (g : Grant) (a : String)
    → g.scope_type ≡ s
    → scope_covers s g a ≡ true
    → Covers g a
unfolding scope_covers
scope_sound all_accounts g a e h = everything e
scope_sound single_account g a e h = one e (opt_eq-some g.account_id a h)
scope_sound account_list g a e h = listed e ((includes_iff _ _).0 h)
scope_sound crm_report g a e h = reported e ((includes_iff _ _).0 h)

scope_complete : (g : Grant) (a : String) → Covers g a → scope_covers g.scope_type g a ≡ true
unfolding scope_covers
scope_complete g a (everything e) = ground arith
scope_complete g a (one e f) = ground (arith, eq_iff a a)
scope_complete g a (listed e m) =
    let h : includes g.cached_account_ids a ≡ true = (includes_iff _ a).1 m in ground arith
scope_complete g a (reported e m) =
    let h : includes g.cached_account_ids a ≡ true = (includes_iff _ a).1 m in ground arith

-- A list of grants that holds one that covers the account.
abbrev pub SomeCovers : List Grant → String → Type 0
SomeCovers gs a = (g : Grant) × Memᴰ g gs × Covers g a

any_sound : (gs : List Grant) (a : String) → any_grant_covers gs a ≡ true → SomeCovers gs a
unfolding any_grant_covers
any_sound [] a h = cc
any_sound (g ∷ gs) a h = elim (Bool-cases (scope_covers g.scope_type g a)) [
  | inl e ↦ (g, Memᴰ.head refl, scope_sound _ g a refl e)
  | inr e ↦ let (found, m, c) = any_sound gs a (ground arith) in (found, Memᴰ.tail m, c)
]

any_complete :
    {g : Grant} {gs : List Grant} (a : String)
    → Memᴰ g gs
    → Covers g a
    → any_grant_covers gs a ≡ true
unfolding any_grant_covers
any_complete {g} a (Memᴰ.head e) c = rw (← e, scope_complete g a c)
any_complete a (Memᴰ.tail {x} m) c = ground (arith, any_complete a m c)

pub any_grant_covers_iff :
    (gs : List Grant) (a : String) → (any_grant_covers gs a ≡ true) ↔ SomeCovers gs a
any_grant_covers_iff gs a = (any_sound gs a, λ c. any_complete a c.1 c.2)

module _ (find_grants : String → String → Result (List Grant)) where
  -- Access is given to an owner or admin, and otherwise exactly by a grant of the user in the
  -- organization that covers the account.
  pub can_access_account_iff :
      (user_id organization_id account_id : String) (user_role : Option UserRole)
      → (can_access_account find_grants user_id organization_id account_id user_role ≡ ok true) ↔ (
          (is_admin user_role ≡ true)
          ⊎ ((gs : List Grant) × (find_grants user_id organization_id ≡ ok gs)
              × SomeCovers gs account_id))
  unfolding can_access_account
  can_access_account_iff u o a r = (to, from)
    where
      to :
          can_access_account find_grants u o a r ≡ ok true
          → (is_admin r ≡ true) ⊎ ((gs : List Grant) × (find_grants u o ≡ ok gs) × SomeCovers gs a)
      to h = elim (Bool-cases (is_admin r)) [
        | inl e ↦ inl e
        | inr e ↦
            let (gs, found, last) = >>=-eq-ok (find_grants u o) _ (rw (e) at h) in
            inr (gs, found, any_sound gs a (cc))
      ]

      from :
          (is_admin r ≡ true) ⊎ ((gs : List Grant) × (find_grants u o ≡ ok gs) × SomeCovers gs a)
          → can_access_account find_grants u o a r ≡ ok true
      from (inl e) = rw e
      from (inr (gs, found, c)) = ground (arith, any_complete a c.1 c.2)

-- Whether an answer of `getAccessibleAccountIds` lets the account through.
abbrev pub allows : Option (List String) → String → Bool
allows none a = true
allows (some ids) a = includes ids a

includes-append :
    (xs ys : List String) (a : String) → includes (xs ++ ys) a ≡ (includes xs a || includes ys a)
includes-append [] ys a = refl
includes-append (x ∷ xs) ys a = ground (arith, includes-append xs ys a)

includes-add_id :
    (ids : List String) (id a : String) → includes (add_id ids id) a ≡ (includes ids a || id == a)
unfolding add_id
includes-add_id ids id a = ground (arith, includes-append ids (id ∷ []) a, eq_iff id a)

includes-add_ids :
    (ids new : List String) (a : String)
    → includes (add_ids ids new) a ≡ (includes ids a || includes new a)
unfolding add_ids
includes-add_ids ids [] a = ground arith
includes-add_ids ids (id ∷ new) a =
    ground (arith, includes-add_ids (add_id ids id) new a, includes-add_id ids id a)

includes-id_list :
    (o : Option String) (a : String) → a ≢ "" → includes (id_list (truthy o)) a ≡ opt_eq o (some a)
includes-id_list none a h = refl
includes-id_list (some b) a h = ground (arith, eq_iff b "", eq_iff b a)

-- one round of the loop, the rest of it given
allows_round :
    (s : AccountScopeType) (g : Grant) (gs : List Grant) (ids : List String) (a : String)
    → a ≢ ""
    → ((more : List String)
        → allows (collect_ids more gs) a ≡ (includes more a || any_grant_covers gs a))
    → allows (elim (scope_ids s g) [ none ↦ none | some new ↦ collect_ids (add_ids ids new) gs ]) a
      ≡ (includes ids a || (if scope_covers s g a then true else any_grant_covers gs a))
unfolding scope_ids scope_covers
allows_round all_accounts g gs ids a h ih = ground arith
allows_round single_account g gs ids a h ih =
    let new = id_list (truthy g.account_id) in
    ground
      (arith, ih (add_ids ids new), includes-add_ids ids new a, includes-id_list g.account_id a h)
allows_round account_list g gs ids a h ih =
    let new = g.cached_account_ids in
    ground (arith, ih (add_ids ids new), includes-add_ids ids new a)
allows_round crm_report g gs ids a h ih =
    let new = g.cached_account_ids in
    ground (arith, ih (add_ids ids new), includes-add_ids ids new a)

allows-collect_ids :
    (ids : List String) (gs : List Grant) (a : String)
    → a ≢ ""
    → allows (collect_ids ids gs) a ≡ (includes ids a || any_grant_covers gs a)
unfolding collect_ids any_grant_covers
allows-collect_ids ids [] a h = ground arith
allows-collect_ids ids (g ∷ gs) a h =
    allows_round g.scope_type g gs ids a h (λ more. allows-collect_ids more gs a h)

answers_agree :
    (m : Result (List Grant)) (a : String)
    → a ≢ ""
    → (m >>= λ gs. ok (any_grant_covers gs a))
      ≡ ((m >>= λ gs. ok (collect_ids [] gs)) >>= λ ids. ok (allows ids a))
answers_agree (ok gs) a h = rw (allows-collect_ids [] gs a h)
answers_agree (throw e) a h = refl

-- The two questions agree: a user may work on an account, its id not the empty text, exactly if
-- the list of accessible accounts is null or holds it. Both throw together.
pub can_access_account-allows :
    (find_grants : String → String → Result (List Grant))
    (user_id organization_id account_id : String) (user_role : Option UserRole)
    → account_id ≢ ""
    → can_access_account find_grants user_id organization_id account_id user_role ≡ (
        get_accessible_account_ids find_grants user_id organization_id user_role >>= λ ids.
        ok (allows ids account_id))
unfolding can_access_account get_accessible_account_ids
can_access_account-allows find_grants u o a r h = elim (Bool-cases (is_admin r)) [
  | inl e ↦ rw e
  | inr e ↦ rw e (answers_agree (find_grants u o) a h)
]
