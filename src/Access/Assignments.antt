-- ===== src/Access/Assignments.antt =====
-- `assignRoleToUser` of src/services/role-profiles.ts, on the tables that it reads and writes.
-- The rows of `UserRoleAssignment` and `AIUsageLimit` are functions of their unique keys. A
-- transaction is done as a whole.
pub mod Laws
pub mod Tests
use text.Mathlib.TextEquality.{eq_iff}
use webappv.Common.{
  ℕ, String, ◌≡◌, refl, ◌≢◌, ◌∙◌, inl, inr, Bool, true, false, not, ◌&&◌, Option, none, some, List,
  [], ◌∷◌, ◌++◌, Memᴰ, arith, if◌then◌else◌, ◌==◌, string_equality, any, select, find, Bool-cases,
  Option-cases, Result, ok, throw,
}
use webappv.Access.Roles.{UserRole, AccountScopeType, single_account, account_list, is_admin}
use webappv.Access.Schema.{ProfileLimits, RoleProfile, Assignment, GrantData, Grant}
use webappv.Access.RoleProfiles.{EffectiveRolePolicy, policy_of_profile, get_effective_policy}

-- model AIUsageLimit: the weekly limits, which no profile has, and those of a profile
pub record UsageLimit : Type 0 where
  pub max_tokens_per_week : Option ℕ
  pub max_requests_per_week : Option ℕ
  pub max_stories_per_week : Option ℕ
  pub of_profile : ProfileLimits

pub record User : Type 0 where
  pub id : String
  pub organization_id : String

pub record Tables : Type 0 where
  pub profiles : List RoleProfile
  pub users : List User
  pub assignments : String → Option Assignment
  pub usage_limits : (organization_id user_id : String) → Option UsageLimit
  pub grants : List Grant

-- `aIUsageLimit.upsert`: the weekly limits of a row that is there stay
unfoldable pub upsert_limit : ProfileLimits → Option UsageLimit → UsageLimit
upsert_limit limits none = record {
  max_tokens_per_week = none;
  max_requests_per_week = none;
  max_stories_per_week = none;
  of_profile = limits;
}
upsert_limit limits (some row) = record row { of_profile = limits }

abbrev head : List String → Option String
head [] = none
head (id ∷ ids) = some id

-- the columns of the grant that goes with a profile
unfoldable pub scope_account : AccountScopeType → List String → Option String
scope_account single_account ids = head ids
scope_account _ ids = none

unfoldable pub scope_list : AccountScopeType → List String → List String
scope_list account_list ids = ids
scope_list _ ids = []

unfoldable pub default_grant :
    (id organization_id user_id : String) → Option String → RoleProfile → Grant
default_grant id organization_id user_id assigned_by profile = record {
  id = id;
  last_synced_at = none;
  row = record {
    user_id = user_id;
    organization_id = organization_id;
    scope_type = profile.default_account_scope_type;
    account_id = scope_account profile.default_account_scope_type profile.default_account_ids;
    crm_report_id = none;
    crm_provider = none;
    crm_report_name = none;
    cached_account_ids = scope_list profile.default_account_scope_type profile.default_account_ids;
    granted_by_id = assigned_by;
  };
}

-- `assignedById` of the upsert: where it is not given, a row that is there keeps its own
abbrev pub assigner : Option String → Option Assignment → Option String
assigner (some id) row = some id
assigner none none = none
assigner none (some row) = row.assigned_by_id

abbrev pub is_of : (organization_id user_id : String) → Grant → Bool
is_of organization_id user_id g = g.user_id == user_id && g.organization_id == organization_id

-- `new_id` is the id that the database gives to the new grant
module _ (organization_id user_id new_id : String) (assigned_by : Option String) where
  -- the transaction
  unfoldable pub assigned : RoleProfile → Tables → Tables
  assigned profile t = record t {
    assignments = λ u.
        if u == user_id
        then some (record {
          user_id = user_id;
          role_profile = profile;
          assigned_by_id = assigner assigned_by (t.assignments user_id);
        })
        else t.assignments u;
    usage_limits = λ o u.
        if o == organization_id && u == user_id
        then some (upsert_limit profile.limits (t.usage_limits o u))
        else t.usage_limits o u;
    grants =
        select (λ g. not (is_of organization_id user_id g)) t.grants
        ++ default_grant new_id organization_id user_id assigned_by profile ∷ [];
  }

  abbrev pub find_profile : String → Tables → Option RoleProfile
  find_profile role_profile_id t =
      find (λ p. p.id == role_profile_id && p.organization_id == organization_id) t.profiles

  abbrev pub has_user : Tables → Bool
  has_user t = any (λ u. u.id == user_id && u.organization_id == organization_id) t.users

  unfoldable pub assign_role_to_user : (role_profile_id : String) → Tables → Result Tables
  assign_role_to_user role_profile_id t = elim (find_profile role_profile_id t) [
    | none ↦ throw "User or role profile not found in this organization"
    | some profile ↦
        if has_user t
        then ok (assigned profile t)
        else throw "User or role profile not found in this organization"
  ]

-- `userAccountAccess.findMany` and `userRoleAssignment.findUnique`
abbrev pub grants_of : Tables → String → String → Result (List Grant)
grants_of t user_id organization_id = ok (select (is_of organization_id user_id) t.grants)

abbrev pub assignment_of : Tables → String → Result (Option Assignment)
assignment_of t user_id = ok (t.assignments user_id)
