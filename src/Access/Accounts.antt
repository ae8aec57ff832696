-- ===== src/Access/Accounts.antt =====
-- src/services/account-access.ts: which accounts a user may work on. The queries are arguments.
pub mod Laws
use webappv.Common.{
  String, Bool, true, false, Option, none, some, List, [], ◌∷◌, ◌++◌, if◌then◌else◌, includes,
  opt_eq, string_equality, truthy, Result, ok, ◌>>=◌,
}
use webappv.Access.Roles.{
  UserRole, AccountScopeType, all_accounts, single_account, account_list, crm_report, is_admin,
}
use webappv.Access.Schema.{Grant}

-- the cases of the `switch` of `canAccessAccount`, true where it returns
unfoldable pub scope_covers : AccountScopeType → Grant → String → Bool
scope_covers all_accounts grant account_id = true
scope_covers single_account grant account_id = opt_eq grant.account_id (some account_id)
scope_covers account_list grant account_id = includes grant.cached_account_ids account_id
scope_covers crm_report grant account_id = includes grant.cached_account_ids account_id

-- the loop of `canAccessAccount`; no grants give false at once
unfoldable pub any_grant_covers : List Grant → String → Bool
any_grant_covers [] account_id = false
any_grant_covers (grant ∷ grants) account_id =
    if scope_covers grant.scope_type grant account_id
    then true
    else any_grant_covers grants account_id

-- one `accountIds.add(id)` on a set that keeps the order of insertion
unfoldable pub add_id : List String → String → List String
add_id ids id = if includes ids id then ids else ids ++ id ∷ []

unfoldable pub add_ids : List String → List String → List String
add_ids ids [] = ids
add_ids ids (id ∷ more) = add_ids (add_id ids id) more

abbrev pub id_list : Option String → List String
id_list none = []
id_list (some id) = id ∷ []

-- the ids that one case of the `switch` of `getAccessibleAccountIds` adds; `none` returns null
unfoldable pub scope_ids : AccountScopeType → Grant → Option (List String)
scope_ids all_accounts grant = none
scope_ids single_account grant = some (id_list (truthy grant.account_id))
scope_ids account_list grant = some grant.cached_account_ids
scope_ids crm_report grant = some grant.cached_account_ids

-- the loop of `getAccessibleAccountIds`; `none` is null, "all accounts"
unfoldable pub collect_ids : List String → List Grant → Option (List String)
collect_ids ids [] = some ids
collect_ids ids (grant ∷ grants) = elim (scope_ids grant.scope_type grant) [
  | none ↦ none
  | some new ↦ collect_ids (add_ids ids new) grants
]

module _ (find_grants : String → String → Result (List Grant)) where
  unfoldable pub can_access_account : String → String → String → Option UserRole → Result Bool
  can_access_account user_id organization_id account_id user_role =
      if is_admin user_role
      then ok true
      else do grants ← find_grants user_id organization_id; ok (any_grant_covers grants account_id)

  unfoldable pub get_accessible_account_ids :
      String → String → Option UserRole → Result (Option (List String))
  get_accessible_account_ids user_id organization_id user_role =
      if is_admin user_role
      then ok none
      else do grants ← find_grants user_id organization_id; ok (collect_ids [] grants)
