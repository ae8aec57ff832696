-- ===== src/Pages/Tests.antt =====
-- A page of one organization under the operations, and the theorems on it.
use webappv.Common.{
  String, ℕ, ◌&&◌, ◌≡◌, refl, ◌↔◌, true, false, Option, none, some, [], ◌∷◌, map, arith, find, ◌==◌,
  string_equality, if◌then◌else◌, ok, throw,
}
use webappv.Setup.Wizard.{Visibility}
use webappv.Pages.{
  Settings, LandingPage, Version, Story, Store, published, draft, superseded, find_page,
}
use webappv.Pages.Editor.{
  Texts, Snapshot, PublishOptions, has_any, scrub_box, scrubbed_snapshot, scrub_page, is_version_of,
  publish, write_published, check_texts, published_page, sync_story, latest_published,
  create_artifact_version, next_version, version_of, max_version,
}
use webappv.Pages.Changes.{
  UpdateInput, archive, unpublish, rollback, rolled_back_page, update, write_update, updated_page,
}
use webappv.Pages.Public.{PublicPage, opens, public_page, get_public_by_slug}
use webappv.Pages.Shown.{IsShown, get_public_by_slug-shows_iff}
use webappv.Pages.Viewers.{MaySee}
use webappv.Pages.Privacy.{scrub_subtitle, publish-public_page}
use webappv.Pages.Conflicts.{write_update-refuses, visit-refuses}
use webappv.Pages.Endings.{takedown-hides, rollback-public_page}
use webappv.Pages.Versions.{IsVersioned}
use webappv.Pages.Reach.{Step, start, step, Steps-IsVersioned}

abbrev pub texts : Texts
texts = record {
  scrub = λ account_id text. if text == "Acme wins" then "A customer wins" else text;
  leaked_terms = λ account_id s. if s.title == "Acme wins" then "Acme" ∷ [] else [];
  issues = λ s. if s.body == "" then "body_required" ∷ [] else [];
  hash_password = λ word. word;
  verify_password = λ word hash. word == hash;
}

abbrev pub options : PublishOptions
options = record {
  visibility = Visibility.shared_with_link;
  password = some "secret";
  expires_at = some 900;
}

abbrev page : LandingPage
page = record {
  id = "p1";
  organization_id = "o1";
  story_id = "s1";
  slug = "acme";
  title = "Acme wins";
  subtitle = none;
  editable_body = "How it went";
  callout_boxes = some (record { title = "Acme wins"; body = "40%" } ∷ []);
  scrubbed_body = "";
  scrubbed_title = none;
  scrubbed_subtitle = none;
  scrubbed_callout_boxes = none;
  visibility = Visibility.private;
  status = draft;
  password = none;
  include_company_name = false;
  view_count = 0;
  published_at = none;
  expires_at = none;
  updated_at = 5;
}

abbrev pub store : Store
store = record {
  pages = page ∷ [];
  versions = [];
  edits = [];
  stories = record { id = "s1"; account_id = "a1"; published_at = none } ∷ [];
  settings = [];
}

abbrev live : Store
live = (publish texts "v1" 10 "p1" options store).0

published_ok : publish texts "v1" 10 "p1" options store ≡ (live, ok "acme")
unfolding publish write_published check_texts scrub_page published_page sync_story
    create_artifact_version
published_ok = refl

-- The page is served with the password, and neither without it nor after it has expired.
served :
    ((get_public_by_slug texts 20 "acme" (some "secret") live).1
      ≡ some (record {
        title = "A customer wins";
        subtitle = none;
        body = "How it went";
        callout_boxes = record { title = "A customer wins"; body = "40%" } ∷ [];
      }))
    × ((get_public_by_slug texts 20 "acme" (some "other") live).1 ≡ none)
    × ((get_public_by_slug texts 901 "acme" (some "secret") live).1 ≡ none)
unfolding publish write_published check_texts scrub_page published_page sync_story
    create_artifact_version get_public_by_slug opens public_page
served = (refl, refl, refl)

published_rows :
    (map (λ v. v.version_number) live.versions ≡ 1 ∷ [])
    × (map (λ s. s.published_at) live.stories ≡ some 10 ∷ [])
unfolding publish write_published check_texts scrub_page published_page sync_story latest_published
    create_artifact_version next_version version_of max_version
published_rows = (refl, refl)

abbrev page_shown : PublicPage
page_shown = record {
  title = "A customer wins";
  subtitle = none;
  body = "How it went";
  callout_boxes = record { title = "A customer wins"; body = "40%" } ∷ [];
}

get_public_by_slug-shows_iff_example :
    ((get_public_by_slug texts 20 "acme" (some "secret") live).1 ≡ some page_shown) ↔ (
      (p : LandingPage) × (find (λ p. p.slug == "acme") live.pages ≡ some p)
      × MaySee texts 20 (some "secret") p
      × IsShown p live page_shown)
get_public_by_slug-shows_iff_example =
    get_public_by_slug-shows_iff texts 20 "acme" (some "secret") live page_shown

refuses_empty : (s : Snapshot) → s.body ≡ "" → has_any (texts.issues s) ≡ true
refuses_empty s e = rw e refl

no_settings : {s : Settings} → ◌≡◌ {A = Option Settings} none (some s) → ⊥
no_settings h = cc

publish-public_page_example :
    (story : Story) × (find (λ s. s.id == "s1") store.stories ≡ some story)
    × (q : LandingPage) × (find_page "p1" live ≡ some q)
    × ((later : ℕ) (password : Option String) (w : PublicPage)
        → ((get_public_by_slug texts later "acme" password live).1 ≡ some w) ↔ (
            MaySee texts later password q
            × (record {
              title = texts.scrub story.account_id "Acme wins";
              subtitle = scrub_subtitle (texts.scrub story.account_id) none;
              body = texts.scrub story.account_id "How it went";
              callout_boxes =
                  map
                    (scrub_box texts story.account_id)
                    (record { title = "Acme wins"; body = "40%" } ∷ []);
            }
                ≡ w)))
    × (has_any (
          texts.leaked_terms story.account_id
            (scrubbed_snapshot (scrub_page texts story.account_id page)))
        ≡ false)
publish-public_page_example =
    publish-public_page texts "v1" 10 "p1" options store live refuses_empty refl refl
      (refl, λ s e. absurd (no_settings e)) refl published_ok

abbrev edit : Option ℕ → UpdateInput
edit expected = record {
  title = none;
  subtitle = some "by Acme";
  editable_body = some "How it went at Acme";
  callout_boxes = none;
  expected_updated_at = expected;
}

abbrev edited : Store
edited = (update 30 "p1" "u1" (edit (some 10)) live).0

abbrev written : Store
written = (write_update 30 "u1" (edit (some 5)) page store).0

written_ok : write_update 30 "u1" (edit (some 5)) page store ≡ (written, ok 30)
unfolding write_update updated_page
written_ok = refl

write_update-refuses_example :
    write_update 40 "u2" (edit (some 5)) page written
    ≡ (written, throw "Landing page was modified by another user.")
write_update-refuses_example =
    write_update-refuses 30 40 "u1" "u2" (edit (some 5)) (edit (some 5)) page page store written 5
      refl refl refl written_ok

abbrev live_page : LandingPage
live_page = record page {
  scrubbed_body = "How it went";
  scrubbed_title = some "A customer wins";
  scrubbed_callout_boxes = some (record { title = "A customer wins"; body = "40%" } ∷ []);
  visibility = Visibility.shared_with_link;
  status = published;
  password = some "secret";
  published_at = some 10;
  expires_at = some 900;
  updated_at = 10;
}

abbrev plain : Store
plain = record store { pages = live_page ∷ [] }

plain_shown : (get_public_by_slug texts 20 "acme" (some "secret") plain).1 ≡ some page_shown
unfolding get_public_by_slug opens public_page
plain_shown = refl

visit-refuses_example :
    (update 40 "p1" "u1"
      (edit (some 10))
      (get_public_by_slug texts 20 "acme" (some "secret") plain).0).1
    ≡ throw "Landing page was modified by another user."
visit-refuses_example =
    visit-refuses texts 20 40 "acme" "u1" (some "secret") (edit (some 10)) plain refl refl refl refl
      plain_shown

takedown-hides_example :
    ((get_public_by_slug texts 40 "acme" (some "secret") (archive 30 "p1" plain).0).1 ≡ none)
    × ((get_public_by_slug texts 40 "acme" (some "secret") (unpublish 30 "p1" plain).0).1 ≡ none)
takedown-hides_example =
    takedown-hides texts 30 40 "acme" (some "secret") plain {p = live_page} refl refl

abbrev scrubbed_page : LandingPage
scrubbed_page = record live_page { scrubbed_subtitle = some "by a customer" }

abbrev version : Version
version = record {
  id = "v1";
  organization_id = "o1";
  landing_page_id = "p1";
  version_number = 1;
  status = superseded;
  title_snapshot = "Acme starts";
  subtitle_snapshot = none;
  body_snapshot = "How it began";
  callout_boxes_snapshot = some [];
  visibility_snapshot = Visibility.shared_with_link;
  expires_at_snapshot = none;
  published_at_snapshot = some 3;
}

abbrev with_version : Store
with_version = record store { pages = scrubbed_page ∷ []; versions = version ∷ [] }

abbrev back : Store
back = (rollback "v2" 50 "p1" "v1" with_version).0

back_ok : rollback "v2" 50 "p1" "v1" with_version ≡ (back, ok tt)
unfolding rollback rolled_back_page next_version max_version
back_ok = refl

rollback-public_page_example :
    (v : Version) × (find (λ v. v.id == "v1" && is_version_of scrubbed_page v) with_version.versions
      ≡ some v)
    × (q : LandingPage) × (find_page "p1" back ≡ some q)
    × (q.status ≡ published)
    × (q.title ≡ v.title_snapshot)
    × (q.subtitle ≡ v.subtitle_snapshot)
    × (q.editable_body ≡ v.body_snapshot)
    × (q.callout_boxes ≡ v.callout_boxes_snapshot)
    × (q.visibility ≡ v.visibility_snapshot)
    × (q.expires_at ≡ v.expires_at_snapshot)
    × ((later : ℕ) (password : Option String) (w : PublicPage)
        → ((get_public_by_slug texts later "acme" password back).1 ≡ some w) ↔ (
            MaySee texts later password q
            × (record {
              title = "A customer wins";
              subtitle = some "by a customer";
              body = "How it went";
              callout_boxes = record { title = "A customer wins"; body = "40%" } ∷ [];
            }
                ≡ w)))
rollback-public_page_example =
    rollback-public_page texts "v2" 50 "p1" "v1" with_version back refl refl
      (refl, λ s e. absurd (no_settings e)) refl refl refl refl back_ok

no_versions : IsVersioned page []
no_versions = record { one_active = omega arith; numbered = λ v w m. elim m [ ] }

Steps-IsVersioned_example :
    IsVersioned page
      (rollback "v2" 50 "p1" "v1" (publish texts "v1" 10 "p1" options store).0).0.versions
Steps-IsVersioned_example =
    Steps-IsVersioned texts page {store = store}
      (step (step start (Step.publishing "v1" 10 "p1" options))
        (Step.rolling_back "v2" 50 "p1" "v1"))
      no_versions
