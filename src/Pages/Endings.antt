-- ===== src/Pages/Endings.antt =====
-- src/services/landing-page-editor.ts, `archive` and `unpublish`, and the rollback of
-- src/services/landing-page-editor-admin.ts: what the public sees afterwards.
use webappv.Common.{
  ℕ, String, ◌&&◌, ◌≡◌, refl, ◌∙◌, ap, sym, false, Option, none, some, List, ◌∷◌, find, ◌==◌,
  string_equality, find-mem, ◌↔◌, Result, ok, any, Bool-cases, inl, inr, some_injective, subst,
}
use webappv.Pages.{
  CalloutBox, LandingPage, Version, Store, published, archived, draft, is_published, find_page,
  write_page, or_throw, proceed, or_throw-eq-ok,
}
use webappv.Pages.Editor.{Texts, sync_story, is_version_of}
use webappv.Pages.Changes.{change_and_sync, archive, unpublish, rollback, rolled_back_page}
use webappv.Pages.Public.{PublicPage, public_page, get_public_by_slug}
use webappv.Pages.Shown.{HidesNames, hidden_names}
use webappv.Pages.Viewers.{MaySee}
use webappv.Pages.Visits.{at_found}
use webappv.Pages.Writes.{touched, by_slug-write_page, find_page-write_page}

synced-pages :
    {X : Type 0} (story_id : String) (store : Store) (x : X)
    → (proceed store (sync_story story_id store) (λ synced. (synced, ok x))).0.pages ≡ store.pages
unfolding sync_story
synced-pages story_id store x = elim (Bool-cases (any (λ s. s.id == story_id) store.stories)) [
  | inl e ↦ rw e refl
  | inr e ↦ rw e refl
]

change_and_sync-pages :
    (now : ℕ) (change : LandingPage → LandingPage) (page_id : String) (store : Store)
    {p : LandingPage}
    → find_page page_id store ≡ some p
    → (change_and_sync now change page_id store).0.pages
      ≡ (write_page now page_id change store).pages
unfolding change_and_sync
change_and_sync-pages now change page_id store {p} found =
    ap (λ o. (or_throw "No record was found for an update." store o after).0.pages) found
    ∙ synced-pages p.story_id (write_page now page_id change store) tt
  where
    after : LandingPage → Store × Result (Unit {0})
    after q =
        proceed (write_page now page_id change store)
          (sync_story q.story_id (write_page now page_id change store)) (λ synced. (synced, ok tt))

module _ (texts : Texts) (now later : ℕ) (slug : String) (password : Option String) (store : Store)
    {p : LandingPage} (at_slug : find (λ q. q.slug == slug) store.pages ≡ some p)
    (found : find_page p.id store ≡ some p) where
  taken_down :
      (change : LandingPage → LandingPage)
      → ((q : LandingPage) → (change q).slug ≡ q.slug)
      → is_published (change p).status ≡ false
      → (get_public_by_slug texts later slug password (change_and_sync now change p.id store).0).1
        ≡ none
  taken_down change kept down =
      let after = (change_and_sync now change p.id store).0 in
      ap (λ r. r.1)
        (at_found texts later slug password after {o = some (touched now change p)} (
          ap (find (λ q. q.slug == slug)) (change_and_sync-pages now change p.id store found)
          ∙ by_slug-write_page now slug change store kept at_slug))
      ∙ rw down refl

  -- A page that is archived or unpublished is gone for the public, whatever the password, and also
  -- where the operation throws because the date of the story cannot be written.
  pub takedown-hides :
      ((get_public_by_slug texts later slug password (archive now p.id store).0).1 ≡ none)
      × ((get_public_by_slug texts later slug password (unpublish now p.id store).0).1 ≡ none)
  unfolding archive unpublish
  takedown-hides = (
    taken_down (λ q. record q { status = archived }) (λ q. refl) refl,
    taken_down (λ q. record q { status = draft; published_at = none }) (λ q. refl) refl,
  )

abbrev WrittenBack : ℕ → String → String → Store → Store → LandingPage → Type 0
WrittenBack now page_id version_id store store' p =
    (v : Version) × (find (λ v. v.id == version_id && is_version_of p v) store.versions ≡ some v)
    × (find_page page_id store' ≡ some (touched now (rolled_back_page now v) p))
    × (store'.pages ≡ (write_page now p.id (rolled_back_page now v) store).pages)
    × (store'.settings ≡ store.settings)

rollback-eq-found :
    (new_version_id : String) (now : ℕ) (page_id version_id : String) (store store' : Store)
    {p : LandingPage}
    → find_page page_id store ≡ some p
    → rollback new_version_id now page_id version_id store ≡ (store', ok tt)
    → WrittenBack now page_id version_id store store' p
unfolding rollback rolled_back_page
rollback-eq-found new_version_id now page_id version_id store store' found h =
    let (q, found', h₁) = or_throw-eq-ok _ _ _ _ h in
    let (v, at_version, h₂) = or_throw-eq-ok _ _ _ _ h₁ in
    subst (WrittenBack now page_id version_id store store') (some_injective (sym found' ∙ found)) (
      v,
      at_version,
      ap (λ r. find_page page_id r.0) (sym h₂)
          ∙ find_page-write_page now page_id (rolled_back_page now v) store (λ r. refl) found',
      ap (λ r. r.0.pages) (sym h₂)
          ∙ ap (λ i. (write_page now i (rolled_back_page now v) store).pages)
              (sym (
                (string_equality.beq_iff _ _).0
                  ((find-mem (λ q. q.id == page_id) store.pages found').1))),
      ap (λ r. r.0.settings) (sym h₂),
    )

-- A rollback publishes the page again, of whatever status, and restores the version's title,
-- subtitle, body, boxes, visibility and expiry. But where the page and its organization hide the
-- names, and the page has scrubbed texts of every kind, those of the last publication stay: whoever
-- may see the page after the rollback gets them and not the texts of the version. The slug of the
-- page is taken to lead to it.
pub rollback-public_page :
    (texts : Texts) (new_version_id : String) (now : ℕ) (page_id version_id : String)
    (store store' : Store) {p : LandingPage} {title subtitle : String} {box : CalloutBox}
    {boxes : List CalloutBox}
    → find_page page_id store ≡ some p
    → find (λ q. q.slug == p.slug) store.pages ≡ some p
    → HidesNames p store
    → p.scrubbed_title ≡ some title
    → p.scrubbed_subtitle ≡ some subtitle
    → (p.scrubbed_body == "") ≡ false
    → p.scrubbed_callout_boxes ≡ some (box ∷ boxes)
    → rollback new_version_id now page_id version_id store ≡ (store', ok tt)
    → (v : Version) × (find (λ v. v.id == version_id && is_version_of p v) store.versions ≡ some v)
      × (q : LandingPage) × (find_page page_id store' ≡ some q)
      × (q.status ≡ published)
      × (q.title ≡ v.title_snapshot)
      × (q.subtitle ≡ v.subtitle_snapshot)
      × (q.editable_body ≡ v.body_snapshot)
      × (q.callout_boxes ≡ v.callout_boxes_snapshot)
      × (q.visibility ≡ v.visibility_snapshot)
      × (q.expires_at ≡ v.expires_at_snapshot)
      × ((later : ℕ) (password : Option String) (w : PublicPage)
          → ((get_public_by_slug texts later p.slug password store').1 ≡ some w) ↔ (
              MaySee texts later password q
              × (record {
                title = title;
                subtitle = some subtitle;
                body = p.scrubbed_body;
                callout_boxes = box ∷ boxes;
              }
                  ≡ w)))
unfolding rolled_back_page public_page
rollback-public_page texts new_version_id now page_id version_id store store' {p} {title} {subtitle}
      {box} {boxes} found at_slug (anonymous, hidden_by) t s b c h =
    let (v, at_version, written, pages, settings) =
      rollback-eq-found new_version_id now page_id version_id store store' found h in
    let q = touched now (rolled_back_page now v) p in
    let same : public_page false q ≡ (record {
      title = title;
      subtitle = some subtitle;
      body = p.scrubbed_body;
      callout_boxes = box ∷ boxes;
    }) =
      rw (t, s, b, c) refl in
    (
      v,
      at_version,
      q,
      written,
      refl,
      refl,
      refl,
      refl,
      refl,
      refl,
      refl,
      λ later password w.
          let (seen, shows) =
            hidden_names texts later p.slug password store' {p = q}
              (ap (find (λ q. q.slug == p.slug)) pages
                ∙ by_slug-write_page now p.slug (rolled_back_page now v) store (λ q. refl) at_slug)
              (
                anonymous,
                λ s e.
                    hidden_by s
                      (sym (ap (find (λ s. s.organization_id == p.organization_id)) settings) ∙ e),
              )
              w in
          (λ k. let (m, e) = seen k in (m, sym same ∙ e), λ (m, e). shows (m, same ∙ e)),
    )
