-- ===== src/Pages/RouteTests.antt =====
-- The publish route on the page of the tests, for a user of another organization.
use webappv.Common.{Bool, true, false, ◌+◌, ◌*◌, ◌≡◌, refl, ◌↔◌, none, some, [], ok}
use webappv.Access.Roles.{admin, member}
use webappv.Access.Middleware.{
  Response, require_landing_pages_enabled, require_permission, permission_for, permission_checks,
  decide,
}
use webappv.Access.Policy.{
  evaluate, evaluate_gates, evaluate_scope, evaluate_permission,
  legacy_permission_action_to_policy_action, action_permission, org_policy_denies,
  sensitivity_denies,
}
use webappv.Access.RoleProfiles.{get_effective_policy, fallback_policy}
use webappv.Publishing.NamedStories.{get_artifact_publish_governance}
use webappv.Pages.Editor.{
  publish, write_published, check_texts, scrub_page, published_page, sync_story,
  create_artifact_version,
}
use webappv.Pages.Route.{
  Reply, Queries, PublishRequest, Desk, published, refused, requires_publish_approval,
  resolve_approval_policy, publish_directly, publish_as, publish_route,
}
use webappv.Pages.Publishers.{MayPublish}
use webappv.Pages.Direct.{publish_route-published_iff}
use webappv.Pages.Tests.{texts, options, store}

abbrev queries : Queries
queries = record {
  guard = record {
    find_assignment = λ user_id. ok none;
    find_grants = λ user_id organization_id. ok [];
    has_user_permission = λ user_id permission. ok false;
  };
  guard_settings = λ organization_id. ok none;
  find_policy = λ organization_id. ok none;
  get_settings = λ organization_id. ok none;
  add_days = λ now days. now + days * 86_400_000;
}

-- the page belongs to "o1"
abbrev request : PublishRequest
request = record {
  organization_id = some "o2";
  user_id = some "eve";
  user_role = some admin;
  page_id = "p1";
  options = options;
}

abbrev desk : Desk
desk = record { store = store; pending = [] }

abbrev is_denied : Reply → Bool
is_denied (refused (Response.denied permission reason)) = true
is_denied _ = false

foreign_page_published :
    (publish_route texts queries "v1" "r1" 10 request desk).1 ≡ published "acme"
unfolding publish_route require_landing_pages_enabled require_permission permission_for publish_as
    publish_directly get_effective_policy fallback_policy get_artifact_publish_governance
    requires_publish_approval resolve_approval_policy publish write_published check_texts scrub_page
    published_page sync_story create_artifact_version
foreign_page_published = refl

nobody :
    (publish_route texts queries "v1" "r1" 10 (record request { user_id = none }) desk).1
    ≡ refused (Response.reply 401 "Authentication required")
unfolding publish_route require_landing_pages_enabled require_permission
nobody = refl

-- A member without the right to publish is stopped by the guard.
member_stopped :
    is_denied
      (publish_route texts queries "v1" "r1" 10 (record request { user_role = some member }) desk).1
    ≡ true
unfolding publish_route require_landing_pages_enabled require_permission permission_for
    permission_checks decide evaluate evaluate_gates evaluate_scope evaluate_permission
    legacy_permission_action_to_policy_action get_effective_policy fallback_policy org_policy_denies
    sensitivity_denies action_permission
member_stopped = refl

publish_route-published_iff_example :
    ((publish_route texts queries "v1" "r1" 10 request desk).1 ≡ published "acme")
    ↔ MayPublish texts queries "v1" 10 request desk "acme"
publish_route-published_iff_example =
    publish_route-published_iff texts queries "v1" "r1" 10 request desk "acme"
