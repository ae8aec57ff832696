-- ===== src/Pages.antt =====
-- src/services/landing-page-editor.ts and its helpers: the landing pages, their published versions
-- and what the public sees. The tables are those of prisma/schema.prisma with the columns used here;
-- times are milliseconds, and every write of a page sets `updatedAt` (`@updatedAt`).
use webappv.Common.{
  ℕ, String, Bool, true, false, Option, none, some, List, Result, throw, ok, ◌≡◌, refl, ap, find,
  update_where, ◌==◌, string_equality,
}
use webappv.Setup.Wizard.{Visibility}
pub mod Editor
pub mod Changes
pub mod Public
pub mod Visits
pub mod Viewers
pub mod Shown
pub mod Writes
pub mod Privacy
pub mod Conflicts
pub mod Endings
pub mod Versions
pub mod Reach
pub mod Route
pub mod Publishers
pub mod Direct
pub mod Tests
pub mod RouteTests

pub data PageStatus : Type 0 where
  draft published archived : PageStatus

abbrev pub is_published : PageStatus → Bool
is_published published = true
is_published _ = false

-- `icon` and `metricValue` are only copied.
pub record CalloutBox : Type 0 where
  pub title : String
  pub body : String

-- The hero image, the call hours, the style, `noIndex` and the author are left out: they are only
-- copied. A `Json` column holds the boxes that `decodeCalloutBoxes` gives.
pub record LandingPage : Type 0 where
  pub id : String
  pub organization_id : String
  pub story_id : String
  pub slug : String
  pub title : String
  pub subtitle : Option String
  pub editable_body : String
  pub callout_boxes : Option (List CalloutBox)
  pub scrubbed_body : String
  pub scrubbed_title : Option String
  pub scrubbed_subtitle : Option String
  pub scrubbed_callout_boxes : Option (List CalloutBox)
  pub visibility : Visibility
  pub status : PageStatus
  pub password : Option String
  pub include_company_name : Bool
  pub view_count : ℕ
  pub published_at : Option ℕ
  pub expires_at : Option ℕ
  pub updated_at : ℕ

pub data VersionStatus : Type 0 where
  active superseded rolled_back : VersionStatus

abbrev pub is_active : VersionStatus → Bool
is_active active = true
is_active _ = false

-- model PublishedArtifactVersion; notes, users and provenance are left out
pub record Version : Type 0 where
  pub id : String
  pub organization_id : String
  pub landing_page_id : String
  pub version_number : ℕ
  pub status : VersionStatus
  pub title_snapshot : String
  pub subtitle_snapshot : Option String
  pub body_snapshot : String
  pub callout_boxes_snapshot : Option (List CalloutBox)
  pub visibility_snapshot : Visibility
  pub expires_at_snapshot : Option ℕ
  pub published_at_snapshot : Option ℕ

pub record Edit : Type 0 where
  pub landing_page_id : String
  pub edited_by_id : String
  pub previous_body : String
  pub new_body : String

pub record Story : Type 0 where
  pub id : String
  pub account_id : String
  pub published_at : Option ℕ

-- `orgSettings.anonymizationEnabled`; the branding is left out
pub record Settings : Type 0 where
  pub organization_id : String
  pub anonymization_enabled : Bool

pub record Store : Type 0 where
  pub pages : List LandingPage
  pub versions : List Version
  pub edits : List Edit
  pub stories : List Story
  pub settings : List Settings

abbrev pub find_page : String → Store → Option LandingPage
find_page page_id store = find (λ p. p.id == page_id) store.pages

-- `landingPage.update` of the page with an id, which sets `updatedAt`
abbrev pub write_page : (now : ℕ) → String → (LandingPage → LandingPage) → Store → Store
write_page now page_id change store = record store {
  pages =
      update_where (λ p. p.id == page_id) (λ p. record (change p) { updated_at = now }) store.pages;
}

pub not_ok : {X : Type 0} {Y : Type 0} {message : String} {x : X} → throw message ≡ ok x → Y
not_ok h = cc

-- `findUniqueOrThrow`, and what follows on the row
abbrev pub or_throw :
    {A X : Type 0}
    → (message : String) → Store
    → Option A
    → (A → Store × Result X)
    → Store × Result X
or_throw message store none rest = (store, throw message)
or_throw message store (some a) rest = rest a

-- what follows a call that only reads
abbrev pub proceed : {A X : Type 0} → Store → Result A → (A → Store × Result X) → Store × Result X
proceed store (throw message) rest = (store, throw message)
proceed store (ok a) rest = rest a

pub or_throw-eq-ok :
    {A X : Type 0} (message : String) (store : Store) (o : Option A) (rest : A → Store × Result X)
    {store' : Store} {x : X}
    → or_throw message store o rest ≡ (store', ok x)
    → (a : A) × (o ≡ some a) × (rest a ≡ (store', ok x))
or_throw-eq-ok message store none rest h = not_ok (ap (λ r. r.1) h)
or_throw-eq-ok message store (some a) rest h = (a, refl, h)

pub proceed-eq-ok :
    {A X : Type 0} (store : Store) (call : Result A) (rest : A → Store × Result X) {store' : Store}
    {x : X}
    → proceed store call rest ≡ (store', ok x)
    → (a : A) × (call ≡ ok a) × (rest a ≡ (store', ok x))
proceed-eq-ok store (throw message) rest h = not_ok (ap (λ r. r.1) h)
proceed-eq-ok store (ok a) rest h = (a, refl, h)
