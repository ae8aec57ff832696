-- ===== src/Pages/Writes.antt =====
-- src/services/landing-page-editor.ts: what a page is after `publish` and after `update`.
use webappv.Common.{
  ℕ, String, ◌≡◌, refl, ◌∙◌, ap, sym, Bool, true, false, Option, none, some, ◌++◌, find,
  find-update_where, find-update_other, find-mem, ◌==◌, string_equality, any, Result, ok,
  Bool-cases, inl, inr, some_injective, subst,
}
use webappv.Pages.{
  LandingPage, Story, Store, find_page, write_page, not_ok, or_throw, or_throw-eq-ok, proceed-eq-ok,
  superseded,
}
use webappv.Pages.Editor.{
  Texts, Scrubbed, PublishOptions, scrub_page, published_page, next_version, version_of,
  write_published, check_texts, publish, or_unchanged, sync_story, create_artifact_version,
}
use webappv.Pages.Changes.{
  UpdateInput, updated_page, edit_of, is_current, unless_stale, write_update, update,
}

abbrev pub touched : (now : ℕ) → (LandingPage → LandingPage) → LandingPage → LandingPage
touched now change p = record (change p) { updated_at = now }

pub find_page-write_page :
    (now : ℕ) (page_id : String) (change : LandingPage → LandingPage) (store : Store)
    {p : LandingPage}
    → ((q : LandingPage) → (change q).id ≡ q.id)
    → find_page page_id store ≡ some p
    → find_page page_id (write_page now page_id change store) ≡ some (touched now change p)
find_page-write_page now page_id change store same found =
    find-update_where (λ p. p.id == page_id) (touched now change) store.pages
      (λ q e. ap (λ i. i == page_id) (same q) ∙ e) found

-- The page that a slug leads to, after a write of it that leaves the slug.
pub by_slug-write_page :
    (now : ℕ) (slug : String) (change : LandingPage → LandingPage) (store : Store) {p : LandingPage}
    → ((q : LandingPage) → (change q).slug ≡ q.slug)
    → find (λ q. q.slug == slug) store.pages ≡ some p
    → find (λ q. q.slug == slug) (write_page now p.id change store).pages
      ≡ some (touched now change p)
by_slug-write_page now slug change store {p} kept at_slug =
    find-update_other (λ q. q.slug == slug) (λ q. q.id == p.id) (touched now change) store.pages
      (λ q. ap (λ s. s == slug) (kept q)) at_slug
    ∙ rw ((string_equality.beq_iff p.id p.id).1 refl) refl

-- Neither the story's date nor a new version changes the pages.
sync_story-pages :
    (story_id : String) (store : Store)
    → (or_unchanged store (sync_story story_id store)).pages ≡ store.pages
unfolding sync_story
sync_story-pages story_id store = elim (Bool-cases (any (λ s. s.id == story_id) store.stories)) [
  | inl e ↦ rw e refl
  | inr e ↦ rw e refl
]

create_artifact_version-pages :
    (version_id : String) (at : ℕ) (page_id : String) (store : Store)
    → (create_artifact_version version_id at page_id store).0.pages ≡ store.pages
unfolding create_artifact_version
create_artifact_version-pages version_id at page_id store = go (find_page page_id store)
  where
    go :
        (o : Option LandingPage)
        → (or_throw "No LandingPage found" store o (λ p. (
          record store {
            versions = next_version superseded (version_of version_id at p) p store.versions;
          },
          ok tt,
        ))).0.pages
          ≡ store.pages
    go none = refl
    go (some p) = refl

unless_stale-eq-ok :
    (b : Bool) (store : Store) (call : Store × Result ℕ) {store' : Store} {x : ℕ}
    → unless_stale b store call ≡ (store', ok x)
    → (b ≡ true) × (call ≡ (store', ok x))
unless_stale-eq-ok true store call h = (refl, h)
unless_stale-eq-ok false store call h = not_ok (ap (λ r. r.1) h)

module _ (texts : Texts) (version_id : String) (now : ℕ) (options : PublishOptions) where
  pub write_published-pages :
      (s : Scrubbed) (p : LandingPage) (store : Store)
      → (write_published texts version_id now options s p store).0.pages
        ≡ (write_page now p.id (published_page texts now options s) store).pages
  unfolding write_published
  write_published-pages s p store =
      create_artifact_version-pages version_id now p.id _ ∙ sync_story-pages p.story_id _

  -- A page that is published has passed the checks, and is written as scrubbed.
  publish-eq-ok :
      (store store' : Store) (page_id : String) {slug : String}
      → publish texts version_id now page_id options store ≡ (store', ok slug)
      → (p : LandingPage) × (story : Story) × (find_page page_id store ≡ some p)
        × (find (λ s. s.id == p.story_id) store.stories ≡ some story)
        × (check_texts texts story.account_id p ≡ ok tt)
        × (find_page page_id store'
            ≡ some (
                touched now
                  (published_page texts now options (scrub_page texts story.account_id p))
                  p))
  unfolding publish published_page
  publish-eq-ok store store' page_id h =
      let (p, found, h₁) = or_throw-eq-ok _ _ _ _ h in
      let (story, found', h₂) = or_throw-eq-ok _ _ _ _ h₁ in
      let (_, checked, h₃) = proceed-eq-ok _ _ _ h₂ in
      let s = scrub_page texts story.account_id p in
      let named =
        (string_equality.beq_iff _ _).0 ((find-mem (λ q. q.id == page_id) store.pages found).1) in
      (
        p,
        story,
        found,
        found',
        checked,
        ap (find (λ q. q.id == page_id)) (
              ap (λ r. r.0.pages) (sym h₃)
              ∙ write_published-pages s p store
              ∙ ap (λ i. (write_page now i (published_page texts now options s) store).pages) named)
            ∙ find_page-write_page now page_id (published_page texts now options s) store
                (λ q. refl) found,
      )

  pub publish-eq-found :
      (store store' : Store) (page_id : String) {slug : String} {p : LandingPage}
      → find_page page_id store ≡ some p
      → publish texts version_id now page_id options store ≡ (store', ok slug)
      → (story : Story) × (find (λ s. s.id == p.story_id) store.stories ≡ some story)
        × (check_texts texts story.account_id p ≡ ok tt)
        × (find_page page_id store'
            ≡ some (
                touched now
                  (published_page texts now options (scrub_page texts story.account_id p))
                  p))
  publish-eq-found store store' page_id {p} found h =
      let (q, story, found', at_story, checked, written) = publish-eq-ok store store' page_id h in
      subst
        (λ (r : LandingPage).
          (story : Story) × (find (λ s. s.id == r.story_id) store.stories ≡ some story)
          × (check_texts texts story.account_id r ≡ ok tt)
          × (find_page page_id store'
              ≡ some (
                  touched now
                    (published_page texts now options (scrub_page texts story.account_id r)) r)))
        (some_injective (sym found' ∙ found)) (story, at_story, checked, written)

-- Neither does any of these writes change the settings.
pub sync_story-settings :
    (story_id : String) (store : Store)
    → (or_unchanged store (sync_story story_id store)).settings ≡ store.settings
unfolding sync_story
sync_story-settings story_id store = elim (Bool-cases (any (λ s. s.id == story_id) store.stories)) [
  | inl e ↦ rw e refl
  | inr e ↦ rw e refl
]

create_artifact_version-settings :
    (version_id : String) (at : ℕ) (page_id : String) (store : Store)
    → (create_artifact_version version_id at page_id store).0.settings ≡ store.settings
unfolding create_artifact_version
create_artifact_version-settings version_id at page_id store = go (find_page page_id store)
  where
    go :
        (o : Option LandingPage)
        → (or_throw "No LandingPage found" store o (λ p. (
          record store {
            versions = next_version superseded (version_of version_id at p) p store.versions;
          },
          ok tt,
        ))).0.settings
          ≡ store.settings
    go none = refl
    go (some p) = refl

module _ (texts : Texts) (version_id : String) (now : ℕ) (options : PublishOptions)
    (store store' : Store) (page_id : String) {slug : String} {p : LandingPage} {story : Story}
    (found : find_page page_id store ≡ some p)
    (at_story : find (λ s. s.id == p.story_id) store.stories ≡ some story)
    (checked : check_texts texts story.account_id p ≡ ok tt)
    (done : publish texts version_id now page_id options store ≡ (store', ok slug)) where
  abbrev written_store : Store
  written_store =
      (write_published texts version_id now options (scrub_page texts story.account_id p) p store).0

  publish-written : written_store ≡ store'
  unfolding publish
  publish-written =
      let opened : publish texts version_id now page_id options store
          ≡ write_published texts version_id now options (scrub_page texts story.account_id p) p
              store =
        rw (found, at_story, checked) refl in
      ap (λ r. r.0) (sym opened ∙ done)

  pub publish-pages :
      store'.pages
      ≡ (write_page now p.id
          (published_page texts now options (scrub_page texts story.account_id p))
          store).pages
  publish-pages =
      sym (ap (λ s. s.pages) publish-written)
      ∙ write_published-pages texts version_id now options (scrub_page texts story.account_id p) p
          store

  pub publish-settings : store'.settings ≡ store.settings
  unfolding write_published
  publish-settings =
      sym (ap (λ s. s.settings) publish-written)
      ∙ create_artifact_version-settings version_id now p.id _
      ∙ sync_story-settings p.story_id _

pub write_update-eq-ok :
    (now : ℕ) (user_id : String) (input : UpdateInput) (existing : LandingPage) (store : Store)
    {store' : Store} {at : ℕ}
    → write_update now user_id input existing store ≡ (store', ok at)
    → (p : LandingPage) × (find_page existing.id store ≡ some p)
      × (is_current input p ≡ true)
      × (find_page existing.id store' ≡ some (touched now (updated_page input) p))
      × (store'.edits ≡ store.edits ++ edit_of user_id input existing)
unfolding write_update updated_page
write_update-eq-ok now user_id input existing store h =
    let (p, found, h₁) = or_throw-eq-ok _ _ _ _ h in
    let (current, h₂) = unless_stale-eq-ok _ _ _ h₁ in
    (
      p,
      found,
      current,
      ap (λ r. find_page existing.id r.0) (sym h₂)
          ∙ find_page-write_page now existing.id (updated_page input) store (λ q. refl) found,
      ap (λ r. r.0.edits) (sym h₂),
    )

-- An update that goes through is of the page as it was read, and writes what was sent.
pub update-eq-ok :
    (now : ℕ) (page_id user_id : String) (input : UpdateInput) (store : Store) {store' : Store}
    {at : ℕ}
    → update now page_id user_id input store ≡ (store', ok at)
    → (p : LandingPage) × (find_page page_id store ≡ some p)
      × (is_current input p ≡ true)
      × (find_page page_id store' ≡ some (touched now (updated_page input) p))
      × (store'.edits ≡ store.edits ++ edit_of user_id input p)
unfolding update
update-eq-ok now page_id user_id input store {store'} h =
    let (p, found, h₁) = or_throw-eq-ok _ _ _ _ h in
    let (current, h₂) = unless_stale-eq-ok _ _ _ h₁ in
    let (q, found', _, written, edited) = write_update-eq-ok now user_id input p store h₂ in
    let named =
      (string_equality.beq_iff _ _).0 ((find-mem (λ q. q.id == page_id) store.pages found).1) in
    let same = some_injective (sym found' ∙ ap (λ i. find_page i store) named ∙ found) in
    (
      p,
      found,
      current,
      ap (λ i. find_page i store') (sym named)
          ∙ written
          ∙ ap (λ r. some (touched now (updated_page input) r)) same,
      edited,
    )
