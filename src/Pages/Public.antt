-- ===== src/Pages/Public.antt =====
-- src/services/landing-page-editor.ts, `getPublicBySlug`, and
-- src/services/scheduled-page-publish.ts.
use webappv.Common.{
  ℕ, String, ◌+◌, Bool, true, false, not, ◌||◌, Option, none, some, List, [], ◌∷◌, if◌then◌else◌,
  ltb, ◌==◌, string_equality, truthy, find, Result, ok, ◌>>=◌,
}
use webappv.Setup.Wizard.{Visibility}
use webappv.Pages.{CalloutBox, LandingPage, Store, is_published, find_page, write_page}
use webappv.Pages.Editor.{Texts, PublishOptions, default_to, publish}

pub record PublicPage : Type 0 where
  pub title : String
  pub subtitle : Option String
  pub body : String
  pub callout_boxes : List CalloutBox

abbrev pub is_private : Visibility → Bool
is_private Visibility.private = true
is_private Visibility.shared_with_link = false

-- `new Date() > expiresAt`
abbrev pub has_expired : (now : ℕ) → LandingPage → Bool
has_expired now p = elim p.expires_at [ none ↦ false | some t ↦ ltb t now ]

-- `anonymizationEnabled ?? true` of the organization
abbrev pub should_anonymize : String → Store → Bool
should_anonymize organization_id store =
    elim (find (λ s. s.organization_id == organization_id) store.settings) [
      | none ↦ true
      | some s ↦ s.anonymization_enabled
    ]

-- the scrubbed boxes where there is one
abbrev pub boxes_or : Option (List CalloutBox) → Option (List CalloutBox) → List CalloutBox
boxes_or (some (box ∷ boxes)) own = box ∷ boxes
boxes_or (some []) own = default_to [] own
boxes_or none own = default_to [] own

-- `scrubbedBody || editableBody`
abbrev pub body_or : String → String → String
body_or scrubbed own = if scrubbed == "" then own else scrubbed

unfoldable pub public_page : (use_original : Bool) → LandingPage → PublicPage
public_page true p = record {
  title = p.title;
  subtitle = p.subtitle;
  body = p.editable_body;
  callout_boxes = default_to [] p.callout_boxes;
}
public_page false p = record {
  title = default_to p.title p.scrubbed_title;
  subtitle = elim p.scrubbed_subtitle [ none ↦ p.subtitle | some s ↦ some s ];
  body = body_or p.scrubbed_body p.editable_body;
  callout_boxes = boxes_or p.scrubbed_callout_boxes p.callout_boxes;
}

abbrev pub uses_original : LandingPage → Store → Bool
uses_original p store = not (should_anonymize p.organization_id store) || p.include_company_name

pub record ScheduledJob : Type 0 where
  pub page_id : String
  pub organization_id : String
  pub options : PublishOptions

pub data ScheduledResult : Type 0 where
  published : (slug : String) → ScheduledResult
  not_published : (reason : String) → ScheduledResult

module _ (texts : Texts) where
  -- the password given verifies, where the page has one
  unfoldable pub opens : (given stored : Option String) → Bool
  opens given stored = elim (truthy stored) [
    | none ↦ true
    | some hash ↦ elim (truthy given) [ none ↦ false | some word ↦ texts.verify_password word hash ]
  ]

  unfoldable pub get_public_by_slug :
      (now : ℕ) → (slug : String) → (password : Option String) → Store → Store × Option PublicPage
  get_public_by_slug now slug password store = elim (find (λ p. p.slug == slug) store.pages) [
    | none ↦ (store, none)
    | some p ↦
        if not (is_published p.status)
        then (store, none)
        else if has_expired now p
        then (store, none)
        else if is_private p.visibility
        then (store, none)
        else if not (opens password p.password)
        then (store, none)
        else (
          write_page now p.id (λ q. record q { view_count = q.view_count + 1 }) store,
          some (public_page (uses_original p store) p),
        )
  ]

  -- `ScheduledPagePublishService.run`
  unfoldable pub run_scheduled :
      (version_id : String) → (now : ℕ) → ScheduledJob → Store → Store × Result ScheduledResult
  run_scheduled version_id now job store = elim (find_page job.page_id store) [
    | none ↦ (store, ok (not_published "target_not_found"))
    | some p ↦
        if not (p.organization_id == job.organization_id)
        then (store, ok (not_published "target_not_found"))
        else if is_published p.status
        then (store, ok (not_published "already_published"))
        else let (store', result) = publish texts version_id now job.page_id job.options store in
          (store', result >>= λ slug. ok (published slug))
  ]
