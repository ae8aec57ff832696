-- ===== src/Publishing/NamedStories/Laws.antt =====
-- Two answers to the question who may see a named story: `canAccessNamedStories` of
-- src/services/landing-page-approval.ts and `evaluate` of src/services/policy-engine.ts.
use webappv.Common.{
  String, ◌≡◌, Bool, true, false, Option, some, arith, truthy, string_equality, ok,
}
use webappv.Access.Roles.{UserRole, is_admin}
use webappv.Access.RoleProfiles.{EffectiveRolePolicy, get_effective_policy}
use webappv.Access.Policy.{
  view_named_story, PolicyQueries, org_policy_denies, sensitivity_denies, evaluate_gates, evaluate,
  deny, story_sensitivity_denied,
}
use webappv.Publishing.NamedStories.{permitted_by, can_access_named_stories}

-- A user with a role policy that gives access to named stories and does not let them be generated
-- is refused "view_named_story" by the engine, and let through by `canAccessNamedStories`.
pub view_named_story_disagrees :
    (q : PolicyQueries) (user_id organization_id : String) (user_role : Option UserRole)
    (account_id : Option String) (flag : Option (Option Bool)) (p : EffectiveRolePolicy)
    → truthy (some user_id) ≡ some user_id
    → truthy (some organization_id) ≡ some organization_id
    → is_admin user_role ≡ false
    → get_effective_policy q.find_assignment organization_id user_id user_role ≡ ok p
    → p.can_access_named_stories ≡ true
    → p.can_generate_named_stories ≡ false
    → (evaluate q (record {
      action = view_named_story;
      organization_id = organization_id;
      user_id = user_id;
      user_role = user_role;
      account_id = account_id;
      pii_export_enabled = flag;
    })
        ≡ ok (deny story_sensitivity_denied))
      × (can_access_named_stories q.find_assignment q.has_user_permission (record {
        organization_id = some organization_id;
        user_id = some user_id;
        user_role = user_role;
      })
          ≡ ok true)
unfolding evaluate evaluate_gates org_policy_denies sensitivity_denies can_access_named_stories
    permitted_by
view_named_story_disagrees q u o r account flag p hu ho n e a g =
    (rw (n, e) (ground arith), rw n (rw ho (rw hu (rw e (rw a)))))
