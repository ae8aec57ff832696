-- ===== src/Pages/Direct.antt =====
-- When the route of src/api/landing-page/publish-routes.ts publishes a page.
use mathlib.Core.Path.{ap₂}
use webappv.Common.{
  ℕ, String, ◌≡◌, refl, ap, ◌↔◌, Bool, true, false, not, Option, none, some, Result, ok, throw,
  if◌then◌else◌, Bool-cases, inl, inr, both_ways, subst, ◌⊎◌, sym, ◌∙◌, some_injective,
}
use webappv.Pages.{LandingPage}
use webappv.Pages.Editor.{Texts, publish}
use webappv.Access.Roles.{is_admin}
use webappv.Access.Middleware.{Response, next}
use webappv.Access.Middleware.Laws.{
  IsSignedIn, IsSwitchedOn, Passes, require_landing_pages_enabled-next_iff,
  require_permission-next_iff,
}
use webappv.Pages.Publishers.{
  MayPublish, can_generate_iff, IsInTime-iff, NeedsNone-sound, NeedsNone-complete,
}
use webappv.Pages.Route.{
  auth, behind, ApprovalSettings, Queries, PublishRequest, Reply, Desk, can_generate,
  expires_too_late, or_fail, or_missing, or_unauthorized, unless, is_pending, policy_of,
  requires_publish_approval, ask_approval, publish_directly, publish_as, publish_route,
  max_expiration, failed, published,
}

abbrev is_done : Reply → Bool
is_done (published slug) = true
is_done _ = false

or_fail-published :
    {A : Type 0} (desk : Desk) (call : Result A) (rest : A → Desk × Reply) {slug : String}
    → (or_fail desk call rest).1 ≡ published slug
    → (a : A) × (call ≡ ok a) × ((rest a).1 ≡ published slug)
or_fail-published desk (throw message) rest h = cc
or_fail-published desk (ok a) rest h = (a, refl, h)

or_missing-published :
    (desk : Desk) (o : Option LandingPage) (rest : LandingPage → Desk × Reply) {slug : String}
    → (or_missing desk o rest).1 ≡ published slug
    → (p : LandingPage) × (o ≡ some p) × ((rest p).1 ≡ published slug)
or_missing-published desk none rest h = cc
or_missing-published desk (some p) rest h = (p, refl, h)

unless-published :
    (b : Bool) (desk : Desk) (reply : Reply) (rest : Desk × Reply) {slug : String}
    → is_done reply ≡ false
    → (unless b desk reply rest).1 ≡ published slug
    → (b ≡ false) × (rest.1 ≡ published slug)
unless-published true desk reply rest n h = both_ways (ap is_done h) n
unless-published false desk reply rest n h = (refl, h)

or_unauthorized-published :
    (desk : Desk) (o : Option String) (rest : String → Desk × Reply) {slug : String}
    → (or_unauthorized desk o rest).1 ≡ published slug
    → (id : String) × (o ≡ some id) × ((rest id).1 ≡ published slug)
or_unauthorized-published desk none rest h = cc
or_unauthorized-published desk (some id) rest h = (id, refl, h)

-- the branch that a known test takes
chosen :
    (c b : Bool) (x y : Desk × Reply) {r : Reply}
    → b ≡ c
    → ◌≡◌ {A = Reply} ((λ (z : Desk × Reply). z.1) (if b then x else y)) r
    → ◌≡◌ {A = Reply} ((λ (z : Desk × Reply). z.1) (if c then x else y)) r
chosen c b x y {r} e h =
    subst (λ d. ◌≡◌ {A = Reply} ((λ (z : Desk × Reply). z.1) (if d then x else y)) r) e h

-- a guard that lets the request through
behind-published :
    (response : Response) (desk : Desk) (rest : Desk × Reply) {slug : String}
    → (behind response desk rest).1 ≡ published slug
    → (response ≡ next) × (rest.1 ≡ published slug)
behind-published next desk rest h = (refl, h)
behind-published (Response.reply status error) desk rest h = cc
behind-published (Response.denied permission reason) desk rest h = cc

module _ (texts : Texts) (queries : Queries) (version_id request_id : String) (now : ℕ)
    (request : PublishRequest) (desk : Desk) (slug : String) where
  asks :
      (organization_id user_id : String) (p : LandingPage)
      → (ask_approval texts queries version_id request_id now organization_id user_id p desk).1
        ≡ published slug
      → ⊥
  unfolding ask_approval
  asks organization_id user_id p h =
      let (_, k) = unless-published (is_pending organization_id p.id desk.pending) _ _ _ refl h in
      both_ways (ap is_done k) refl

  directly :
      (publish_directly texts queries version_id request_id now request desk).1 ≡ published slug
      → (publish texts version_id now request.page_id request.options desk.store).1 ≡ ok slug
  unfolding publish_directly
  directly h =
      answered (publish texts version_id now request.page_id request.options desk.store).1 h
    where
      answered :
          (r : Result String)
          → (elim r as (λ _. Reply) [ ok s ↦ published s | throw message ↦ failed message ])
            ≡ published slug
          → r ≡ ok slug
      answered (ok s) k = cc
      answered (throw message) k = cc

  abbrev by_policy : (o u : String) → LandingPage → Option ApprovalSettings → Desk × Reply
  by_policy o u p settings =
      if requires_publish_approval (policy_of settings) p.include_company_name
      then ask_approval texts queries version_id request_id now o u p desk
      else publish_directly texts queries version_id request_id now request desk

  without_approval :
      (o u : String) (p : LandingPage) (settings : Option ApprovalSettings)
      → (by_policy o u p settings).1 ≡ published slug
      → (requires_publish_approval (policy_of settings) p.include_company_name ≡ false)
        × ((publish texts version_id now request.page_id request.options desk.store).1 ≡ ok slug)
  without_approval o u p settings h =
      elim (Bool-cases (requires_publish_approval (policy_of settings) p.include_company_name)) [
        | inl t ↦ absurd (
            asks o u p (
              chosen true _ _
                (publish_directly texts queries version_id request_id now request desk) t h))
        | inr n ↦ (
          n,
          directly (
              chosen false _ (ask_approval texts queries version_id request_id now o u p desk) _ n
                h),
        )
      ]

  published_as :
      (w : IsSignedIn (auth request))
      → IsSwitchedOn queries.guard_settings (auth request)
      → ((is_admin request.user_role ≡ true)
          ⊎ Passes queries.guard queries.guard_settings "publish" w.user_id w.organization_id
              request.user_role)
      → (publish_as texts queries version_id request_id now w.organization_id w.user_id request
          desk).1
        ≡ published slug
      → MayPublish texts queries version_id now request desk slug
  unfolding publish_as
  published_as w on permitted h =
      let o = w.organization_id in
      let (p, found, h₁) = or_missing-published _ _ _ h in
      let (policy, has_policy, h₂) = or_fail-published _ _ _ h₁ in
      let (may, h₃) = unless-published (not (can_generate policy p)) _ _ _ refl h₂ in
      let (governance, has_governance, h₄) = or_fail-published _ _ _ h₃ in
      let (in_time, h₅) =
        unless-published (expires_too_late queries.add_days now governance request.options) desk
          max_expiration (or_fail desk (queries.get_settings o) (by_policy o w.user_id p)) refl
          h₄ in
      let (settings, has_settings, h₆) =
        or_fail-published desk (queries.get_settings o) (by_policy o w.user_id p) h₅ in
      let (needs_none, publishes) = without_approval o w.user_id p settings h₆ in
      record {
        signed_in = w;
        switched_on = on;
        permitted = permitted;
        page = p;
        policy = policy;
        governance = governance;
        settings = settings;
        found = found;
        has_policy = has_policy;
        generates = (can_generate_iff policy p).0 may;
        has_governance = has_governance;
        in_time = (IsInTime-iff queries.add_days now governance request.options).0 in_time;
        has_settings = has_settings;
        needs_none = NeedsNone-sound settings p.include_company_name needs_none;
        publishes = publishes;
      }

  -- The route publishes a page exactly for a signed-in user of an organization with landing pages
  -- switched on, who passes `requirePermission` for "publish", whose role may generate pages of its
  -- kind, within the expiration that the governance of the user's organization allows, where that
  -- organization asks for no approval of such a page, and if the publication itself goes through. No
  -- condition is on the organization of the page.
  pub publish_route-published_iff :
      ((publish_route texts queries version_id request_id now request desk).1 ≡ published slug)
      ↔ MayPublish texts queries version_id now request desk slug
  unfolding publish_route publish_as publish_directly
  publish_route-published_iff = (
    λ h.
        let (enabled, h₀) = behind-published _ _ _ h in
        let (passed, h₁) = behind-published _ _ _ h₀ in
        let (w, permitted) =
          (require_permission-next_iff queries.guard queries.guard_settings "publish"
              (auth request)).0
            passed in
        let (o, at_organization, h₂) = or_unauthorized-published _ _ _ h₁ in
        let (u, at_user, h₃) = or_unauthorized-published _ _ _ h₂ in
        published_as w
          ((require_landing_pages_enabled-next_iff queries.guard_settings (auth request)).0 enabled)
          permitted
          (subst
            (λ (x : String × String).
              (publish_as texts queries version_id request_id now x.0 x.1 request desk).1
              ≡ published slug)
            (ap₂ (λ (x y : String). (x, y)) (some_injective (sym at_organization ∙ w.organization))
              (some_injective (sym at_user ∙ w.user)))
            h₃),
    λ m.
        rw
          (
            (require_landing_pages_enabled-next_iff queries.guard_settings (auth request)).1
                m.switched_on,
            (require_permission-next_iff queries.guard queries.guard_settings "publish"
                  (auth request)).1
                (m.signed_in, m.permitted),
            m.signed_in.organization,
            m.signed_in.user,
            publish_as,
            m.found,
            m.has_policy,
            (can_generate_iff m.policy m.page).1 m.generates,
            m.has_governance,
            (IsInTime-iff queries.add_days now m.governance request.options).1 m.in_time,
            m.has_settings,
            NeedsNone-complete m.needs_none,
            publish_directly,
            m.publishes,
          )
          refl,
  )
