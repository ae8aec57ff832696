-- ===== src/Access/Assignments/Tests.antt =====
-- The theorems on `assignRoleToUser` (src/services/role-profiles.ts) at a concrete user.
use text.Mathlib.TextEquality.{eq_iff}
use webappv.Common.{
  Memᴰ, String, ◌≡◌, ◌≢◌, refl, none, some, [], ◌∷◌, arith, string_equality, ok, throw,
}
use webappv.Access.Roles.{member, crm_report}
use webappv.Access.Schema.{RoleProfile, Grant}
use webappv.Access.RoleProfiles.{sales, exec, preset, policy_of_profile, get_effective_policy}
use webappv.Access.Assignments.{
  Tables, default_grant, assigned, assign_role_to_user, grants_of, assignment_of,
}
use webappv.Access.Assignments.Laws.{assign_role_to_user_gives}

abbrev report_grant : String → Grant
report_grant user_id = record {
  id = user_id;
  last_synced_at = none;
  row = record {
    user_id = user_id;
    organization_id = "org";
    scope_type = crm_report;
    account_id = none;
    crm_report_id = some "report";
    crm_provider = some "SALESFORCE";
    crm_report_name = none;
    cached_account_ids = "acme" ∷ [];
    granted_by_id = none;
  };
}

abbrev tables : Tables
tables = record {
  profiles = preset sales "p1" "org" ∷ preset exec "p2" "org" ∷ [];
  users =
      record { id = "ann"; organization_id = "org" }
      ∷ record { id = "bob"; organization_id = "org" }
      ∷ [];
  assignments = λ user_id. none;
  usage_limits = λ organization_id user_id. none;
  grants = report_grant "ann" ∷ report_grant "bob" ∷ [];
}

abbrev after_ann : Tables
after_ann = assigned "org" "ann" "g9" (some "owner") (preset exec "p2" "org") tables

assign_ann : assign_role_to_user "org" "ann" "g9" (some "owner") "p2" tables ≡ ok after_ann
unfolding assign_role_to_user preset
assign_ann = refl

-- A profile of another organization is refused.
assign_unknown :
    assign_role_to_user "other" "ann" "g9" none "p2" tables
    ≡ throw "User or role profile not found in this organization"
unfolding assign_role_to_user preset
assign_unknown = refl

assign_role_to_user_gives_example :
    (p : RoleProfile) × Memᴰ p tables.profiles
    × (p.id ≡ "p2")
    × (p.organization_id ≡ "org")
    × (get_effective_policy (assignment_of after_ann) "org" "ann" (some member)
        ≡ ok (policy_of_profile p))
    × (grants_of after_ann "ann" "org" ≡ ok (default_grant "g9" "org" "ann" (some "owner") p ∷ []))
assign_role_to_user_gives_example =
    assign_role_to_user_gives "org" "ann" "g9" (some "owner") "p2" tables after_ann (some member)
      assign_ann refl

ann_ne_bob : ◌≢◌ {A = String} "ann" "bob"
ann_ne_bob = ground (arith, eq_iff "ann" "bob")
