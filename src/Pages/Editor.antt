-- ===== src/Pages/Editor.antt =====
-- src/services/landing-page-editor.ts and landing-page-editor-helpers.ts: publishing a page. An
-- operation gives the store as it leaves it, also where it throws. `Texts` holds the parts that only read and rewrite texts: the scrubber
-- of an account's name, the search for names it missed, the checks of a text before it is published,
-- and the hash of a password.
use webappv.Common.{
  ℕ, String, ◌+◌, max, Bool, true, false, not, ◌&&◌, Option, none, some, List, [], ◌∷◌, ◌++◌, map,
  if◌then◌else◌, ◌==◌, string_equality, truthy, any, find, update_where, Result, ok, throw, ◌>>=◌,
}
use webappv.Setup.Wizard.{Visibility}
use webappv.Pages.{
  CalloutBox, LandingPage, VersionStatus, Version, Store, published, is_published, active,
  superseded, is_active, find_page, write_page, or_throw, proceed,
}

-- what `validatePublishSnapshot` and `detectScrubLeakage` read
pub record Snapshot : Type 0 where
  pub title : String
  pub subtitle : Option String
  pub body : String
  pub callout_boxes : List CalloutBox

pub record Texts : Type 0 where
  pub scrub : (account_id text : String) → String
  pub leaked_terms : (account_id : String) → Snapshot → List String
  pub issues : Snapshot → List String
  pub hash_password : String → String
  pub verify_password : (password stored : String) → Bool

pub record PublishOptions : Type 0 where
  pub visibility : Visibility
  pub password : Option String
  pub expires_at : Option ℕ

abbrev pub default_to : {A : Type 0} → A → Option A → A
default_to d none = d
default_to d (some a) = a

-- the later of two dates, where there is one
abbrev pub later : Option ℕ → Option ℕ → Option ℕ
later none o = o
later (some m) none = some m
later (some m) (some n) = some (max m n)

abbrev pub counts_for : String → LandingPage → Bool
counts_for story_id p = p.story_id == story_id && is_published p.status

-- the first by `publishedAt desc` of the published pages of a story
unfoldable pub latest_published : String → List LandingPage → Option ℕ
latest_published story_id [] = none
latest_published story_id (p ∷ pages) =
    if counts_for story_id p
    then later p.published_at (latest_published story_id pages)
    else latest_published story_id pages

unfoldable pub sync_story : String → Store → Result Store
sync_story story_id store =
    if any (λ s. s.id == story_id) store.stories
    then ok (record store {
      stories =
          update_where (λ s. s.id == story_id)
            (λ s. record s { published_at = latest_published story_id store.pages }) store.stories;
    })
    else throw "No record was found for an update."

-- a call whose error is caught and dropped
abbrev pub or_unchanged : Store → Result Store → Store
or_unchanged store (throw message) = store
or_unchanged store (ok changed) = changed

abbrev pub is_version_of : LandingPage → Version → Bool
is_version_of p v = v.landing_page_id == p.id && v.organization_id == p.organization_id

abbrev pub is_active_of : LandingPage → Version → Bool
is_active_of p v = is_version_of p v && is_active v.status

-- `_max.versionNumber ?? 0`
unfoldable pub max_version : LandingPage → List Version → ℕ
max_version p [] = 0
max_version p (v ∷ versions) =
    let rest = max_version p versions in
    if is_version_of p v then max v.version_number rest else rest

-- The versions of a page, the active one retired, with a new active one.
unfoldable pub next_version : VersionStatus → Version → LandingPage → List Version → List Version
next_version retired version p versions =
    update_where (is_active_of p) (λ v. record v { status = retired }) versions
    ++ record version {
      organization_id = p.organization_id;
      landing_page_id = p.id;
      version_number = max_version p versions + 1;
      status = active;
    }
      ∷ []

-- the version of a page as it is
unfoldable pub version_of : (version_id : String) → (published_at : ℕ) → LandingPage → Version
version_of version_id published_at p = record {
  id = version_id;
  organization_id = p.organization_id;
  landing_page_id = p.id;
  version_number = 0;
  status = active;
  title_snapshot = p.title;
  subtitle_snapshot = p.subtitle;
  body_snapshot = p.editable_body;
  callout_boxes_snapshot = p.callout_boxes;
  visibility_snapshot = p.visibility;
  expires_at_snapshot = p.expires_at;
  published_at_snapshot = some published_at;
}

unfoldable pub create_artifact_version :
    (version_id : String)
    → (published_at : ℕ) → (page_id : String) → Store
    → Store × Result (Unit {0})
create_artifact_version version_id published_at page_id store =
    or_throw "No LandingPage found" store (find_page page_id store) (λ p. (
      record store {
        versions = next_version superseded (version_of version_id published_at p) p store.versions;
      },
      ok tt,
    ))

abbrev pub snapshot : LandingPage → Snapshot
snapshot p = record {
  title = p.title;
  subtitle = p.subtitle;
  body = p.editable_body;
  callout_boxes = default_to [] p.callout_boxes;
}

abbrev pub has_any : List String → Bool
has_any [] = false
has_any (x ∷ xs) = true

-- the columns of a page that an anonymous visitor reads
pub record Scrubbed : Type 0 where
  pub title : String
  pub subtitle : Option String
  pub body : String
  pub callout_boxes : Option (List CalloutBox)

abbrev pub scrubbed_snapshot : Scrubbed → Snapshot
scrubbed_snapshot s = record {
  title = s.title;
  subtitle = s.subtitle;
  body = s.body;
  callout_boxes = default_to [] s.callout_boxes;
}

module _ (texts : Texts) where
  abbrev pub scrub_box : String → CalloutBox → CalloutBox
  scrub_box account_id box = record {
    title = texts.scrub account_id box.title;
    body = texts.scrub account_id box.body;
  }

  unfoldable pub scrub_page : String → LandingPage → Scrubbed
  scrub_page account_id p =
      if p.include_company_name
      then record {
        title = p.title;
        subtitle = p.subtitle;
        body = p.editable_body;
        callout_boxes = none;
      }
      else record {
        title = texts.scrub account_id p.title;
        subtitle = elim (truthy p.subtitle) [
          | none ↦ none
          | some s ↦ some (texts.scrub account_id s)
        ];
        body = texts.scrub account_id p.editable_body;
        callout_boxes = elim p.callout_boxes [
          | none ↦ none
          | some boxes ↦ some (map (scrub_box account_id) boxes)
        ];
      }

  -- the page as `publish` writes it
  unfoldable pub published_page : (now : ℕ) → PublishOptions → Scrubbed → LandingPage → LandingPage
  published_page now options s p = record p {
    scrubbed_body = s.body;
    scrubbed_title = some s.title;
    scrubbed_subtitle = s.subtitle;
    scrubbed_callout_boxes = elim s.callout_boxes [
      | none ↦ p.scrubbed_callout_boxes
      | some boxes ↦ some boxes
    ];
    status = published;
    visibility = options.visibility;
    password = elim (truthy options.password) [
      | none ↦ none
      | some word ↦ some (texts.hash_password word)
    ];
    expires_at = options.expires_at;
    published_at = some now;
  }

  -- what `publish` writes once the texts have passed the checks
  unfoldable pub write_published :
      (version_id : String)
      → (now : ℕ) → PublishOptions
      → Scrubbed
      → LandingPage
      → Store
      → Store × Result String
  write_published version_id now options s p store =
      let written = write_page now p.id (published_page now options s) store in
      let synced = or_unchanged written (sync_story p.story_id written) in
      let (versioned, created) = create_artifact_version version_id now p.id synced in
      (versioned, created >>= λ _. ok p.slug)

  -- the checks of the texts, before and after scrubbing
  unfoldable pub check_texts : String → LandingPage → Result (Unit {0})
  check_texts account_id p =
      let s = scrubbed_snapshot (scrub_page account_id p) in
      if has_any (texts.issues (snapshot p))
      then throw "Publish validation failed"
      else if not p.include_company_name && has_any (texts.leaked_terms account_id s)
      then throw "Scrub validation failed"
      else if has_any (texts.issues s)
      then throw "Publish validation failed"
      else ok tt

  unfoldable pub publish :
      (version_id : String)
      → (now : ℕ) → (page_id : String) → PublishOptions
      → Store
      → Store × Result String
  publish version_id now page_id options store =
      or_throw "No LandingPage found" store (find_page page_id store) (λ p.
        or_throw "No Story found" store (find (λ s. s.id == p.story_id) store.stories) (λ story.
          proceed store (check_texts story.account_id p)
            (λ _. write_published version_id now options (scrub_page story.account_id p) p store)))
