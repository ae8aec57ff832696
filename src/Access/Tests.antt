-- ===== src/Access/Tests.antt =====
-- The theorems on access at concrete users, and runs of the guards of src/middleware/permissions.ts.
use text.Mathlib.TextEquality.{eq_iff}
use webappv.Common.{
  String, ◌≡◌, refl, inl, inr, true, false, Option, none, some, List, [], ◌∷◌, Memᴰ, Result, ok,
  throw, ◌>>=◌, string_equality, ◌≢◌, arith,
}
use webappv.Access.Roles.{
  UserRole-discrete, member, viewer, PermissionType, PermissionType-discrete, single_account,
}
use webappv.Access.Schema.{RoleProfile, Assignment, Grant}
use webappv.Access.RoleProfiles.{
  sales, preset, policy_of_profile, get_effective_policy, fallback_policy,
}
use webappv.Access.Accounts.{
  scope_covers, any_grant_covers, can_access_account, get_accessible_account_ids,
}
use webappv.Access.Accounts.Laws.{one, can_access_account_iff, allows, can_access_account-allows}
use webappv.Access.Policy.{
  publish_landing_page, role_profile_allow, permission_denied, PolicyEvaluationInput,
  PolicyDecision, PolicyQueries, action_permission, org_policy_denies, sensitivity_denies,
  evaluate_permission, evaluate_scope, evaluate_gates, evaluate,
  legacy_permission_action_to_policy_action,
}
use webappv.Access.Policy.Laws.{evaluate-allowed_iff}
use webappv.Access.Middleware.{
  next, reply, AuthRequest, OrgSettings, require_permission, PageQueries, edit_any_checks,
  page_checks, page_access, require_page_owner_or_permission,
}
use webappv.Access.Middleware.Laws.{require_permission-next_iff}
use webappv.Access.Middleware.Pages.{by_role, require_page_owner_or_permission-next_iff}

abbrev grant : Grant
grant = record {
  id = "g1";
  last_synced_at = none;
  row = record {
    user_id = "ann";
    organization_id = "org";
    scope_type = single_account;
    account_id = some "acme";
    crm_report_id = none;
    crm_provider = none;
    crm_report_name = none;
    cached_account_ids = [];
    granted_by_id = some "owner";
  };
}

-- Ann has the preset "SALES" and a grant for one account.
abbrev assignment : Assignment
assignment = record {
  user_id = "ann";
  role_profile = preset sales "r1" "org";
  assigned_by_id = some "owner";
}

abbrev find_grants : String → String → Result (List Grant)
find_grants user_id organization_id = ok (grant ∷ [])

abbrev queries : PolicyQueries
queries = record {
  find_assignment = λ user_id. ok (some assignment);
  find_grants = find_grants;
  has_user_permission = λ user_id permission. throw "connection lost";
}

abbrev input : PolicyEvaluationInput
input = record {
  action = publish_landing_page;
  organization_id = "org";
  user_id = "ann";
  user_role = some member;
  account_id = some "acme";
  pii_export_enabled = some (some false);
}

abbrev request : AuthRequest
request = record { user_id = some "ann"; user_role = some member; organization_id = some "org" }

can_access_account_iff_example :
    can_access_account find_grants "ann" "org" "acme" (some member) ≡ ok true
can_access_account_iff_example =
    (can_access_account_iff find_grants "ann" "org" "acme" (some member)).1
      (inr (grant ∷ [], refl, (grant, Memᴰ.head refl, one refl refl)))

evaluate-allowed_iff_example :
    (d : PolicyDecision) × (evaluate queries input ≡ ok d) × (d.allowed ≡ true)
unfolding get_effective_policy preset action_permission
evaluate-allowed_iff_example = (evaluate-allowed_iff queries input).1 (
    inr (record {
      role_policy = policy_of_profile (preset sales "r1" "org");
      effective = refl;
      export = tt;
      story = tt;
      account = can_access_account_iff_example;
      permission = inl (Memᴰ.tail (Memᴰ.head refl));
    }))

-- The engine's decision for Ann in full, the query that throws not reached.
abbrev decision : PolicyDecision
decision = record {
  allowed = true;
  reason = role_profile_allow;
  required_permission = some PermissionType.publish_landing_page;
}

evaluate-input : evaluate queries input ≡ ok decision
unfolding evaluate evaluate_gates evaluate_scope evaluate_permission org_policy_denies
    sensitivity_denies action_permission get_effective_policy preset can_access_account
    any_grant_covers scope_covers PermissionType-discrete
evaluate-input = refl

acme_ne_empty : ◌≢◌ {A = String} "acme" ""
acme_ne_empty = ground (arith, eq_iff "acme" "")

can_access_account-allows_example :
    can_access_account find_grants "ann" "org" "acme" (some member) ≡ (
      get_accessible_account_ids find_grants "ann" "org" (some member) >>= λ ids.
      ok (allows ids "acme"))
can_access_account-allows_example =
    can_access_account-allows find_grants "ann" "org" "acme" (some member) acme_ne_empty

abbrev find_settings : String → Result (Option OrgSettings)
find_settings organization_id = ok (
    some (record {
      landing_pages_enabled = true;
      allowed_publishers = viewer ∷ [];
      pii_export_enabled = some false;
    }))

-- Vic, a viewer with no profile, publishes by the organization's list of publishers.
abbrev viewer_queries : PolicyQueries
viewer_queries = record {
  find_assignment = λ user_id. ok none;
  find_grants = λ user_id organization_id. ok [];
  has_user_permission = λ user_id permission. ok false;
}

abbrev viewer_request : AuthRequest
viewer_request = record {
  user_id = some "vic";
  user_role = some viewer;
  organization_id = some "org";
}

abbrev viewer_settings : OrgSettings
viewer_settings = record {
  landing_pages_enabled = true;
  allowed_publishers = viewer ∷ [];
  pii_export_enabled = some false;
}

require_permission-next_iff_example :
    require_permission viewer_queries find_settings "publish" viewer_request ≡ next
unfolding evaluate evaluate_gates evaluate_scope evaluate_permission org_policy_denies
    sensitivity_denies action_permission get_effective_policy fallback_policy
    legacy_permission_action_to_policy_action PermissionType-discrete UserRole-discrete
require_permission-next_iff_example =
    (require_permission-next_iff viewer_queries find_settings "publish" viewer_request).1 (
      record { user_id = "vic"; organization_id = "org"; user = refl; organization = refl },
      inr (record {
        policy_action = publish_landing_page;
        settings = some viewer_settings;
        known = refl;
        found = refl;
        decision = record {
          allowed = false;
          reason = permission_denied;
          required_permission = some PermissionType.publish_landing_page;
        };
        answered = refl;
        allowed = inr (refl, refl);
      }),
    )

-- A page of another user, and a user with a role that may edit any page.
abbrev editor_profile : RoleProfile
editor_profile = record (preset sales "r2" "org") {
  permissions = PermissionType.edit_any_landing_page ∷ [];
}

abbrev page_queries : PageQueries
page_queries = record {
  find_page_creator = λ page_id organization_id. ok (some "bob");
  find_assignment = λ user_id. ok (some (record assignment { role_profile = editor_profile }));
  has_user_permission = λ user_id permission. throw "connection lost";
}

require_page_owner_or_permission-next_iff_example :
    require_page_owner_or_permission page_queries "page" request ≡ next
unfolding get_effective_policy preset
require_page_owner_or_permission-next_iff_example =
    (require_page_owner_or_permission-next_iff page_queries "page" request).1 (
      record { user_id = "ann"; organization_id = "org"; user = refl; organization = refl },
      inr (by_role "bob" (policy_of_profile editor_profile) refl refl (Memᴰ.head refl)),
    )

-- Without the right to edit any page the same request is refused, and the query's error is hidden.
page_refused :
    require_page_owner_or_permission
      (record page_queries { find_assignment = λ user_id. ok (some assignment) })
      "page"
      request
    ≡ reply 500 "permission_check_failed"
unfolding require_page_owner_or_permission page_access page_checks edit_any_checks
    get_effective_policy preset PermissionType-discrete
page_refused = refl
