-- ===== src/Pages/Privacy.antt =====
-- src/services/landing-page-editor.ts: what `getPublicBySlug` gives of a page that `publish` made
-- anonymous, right after it and after a later `update`.
use webappv.Common.{
  ℕ, String, ◌≡◌, refl, ◌∙◌, ap, sym, Bool, true, false, not, ◌&&◌, ◌↔◌, Option, none, some, List,
  [], ◌∷◌, map, find, ◌==◌, string_equality, truthy, if◌then◌else◌, Result, ok, throw, Bool-cases,
  inl, inr, both_ways,
}
use webappv.Pages.{CalloutBox, LandingPage, Story, Store, find_page}
use webappv.Pages.Editor.{
  Texts, Snapshot, PublishOptions, has_any, scrub_page, scrub_box, scrubbed_snapshot, snapshot,
  published_page, check_texts, publish,
}
use webappv.Pages.Public.{PublicPage, boxes_or, public_page, get_public_by_slug}
use webappv.Pages.Shown.{HidesNames, hidden_names}
use webappv.Pages.Viewers.{MaySee}
use webappv.Pages.Writes.{
  touched, publish-pages, publish-settings, by_slug-write_page, publish-eq-found,
}

-- a subtitle as it is served, where the empty one is not scrubbed
abbrev pub scrub_subtitle : (String → String) → Option String → Option String
scrub_subtitle scrub o = elim o [ none ↦ none | some s ↦ some (if s == "" then s else scrub s) ]

abbrev scrubbed_text : (String → String) → Option String → Option String
scrubbed_text scrub o = elim (truthy o) [ none ↦ none | some s ↦ some (scrub s) ]

abbrev or_own : Option String → Option String → Option String
or_own own o = elim o [ none ↦ own | some s ↦ some s ]

served_subtitle :
    (scrub : String → String) (o : Option String)
    → or_own o (scrubbed_text scrub o) ≡ scrub_subtitle scrub o
served_subtitle scrub none = refl
served_subtitle scrub (some s) = go (s == "")
  where
    go :
        (b : Bool)
        → or_own
            (some s)
            (elim (if b then none else some s) [ none ↦ none | some s ↦ some (scrub s) ])
          ≡ some (if b then s else scrub s)
    go true = refl
    go false = refl

served_boxes :
    (f : CalloutBox → CalloutBox) (boxes : List CalloutBox)
    → boxes_or (some (map f boxes)) (some boxes) ≡ map f boxes
served_boxes f [] = refl
served_boxes f (box ∷ boxes) = refl

checks :
    (a b c : Bool)
    → ◌≡◌ {A = Result (Unit {0})}
        (if a
          then throw "Publish validation failed"
          else if b
          then throw "Scrub validation failed"
          else if c
          then throw "Publish validation failed"
          else ok tt)
        (ok tt)
    → (b ≡ false) × (c ≡ false)
checks true b c h = cc
checks false true c h = cc
checks false false true h = cc
checks false false false h = (refl, refl)

when_not : (a b : Bool) → a ≡ false → (not a && b) ≡ false → b ≡ false
when_not true b e h = cc
when_not false b e h = h

module _ (texts : Texts) where
  check_texts-eq-ok :
      (account_id : String) (p : LandingPage)
      → p.include_company_name ≡ false
      → check_texts texts account_id p ≡ ok tt
      → (has_any (texts.leaked_terms account_id (scrubbed_snapshot (scrub_page texts account_id p)))
          ≡ false)
        × (has_any (texts.issues (scrubbed_snapshot (scrub_page texts account_id p))) ≡ false)
  unfolding check_texts
  check_texts-eq-ok account_id p anonymous h =
      let (unleaked, valid) = checks (has_any (texts.issues (snapshot p))) _ _ h in
      (when_not p.include_company_name _ anonymous unleaked, valid)

  served :
      (now : ℕ) (options : PublishOptions) (account_id : String) (p : LandingPage)
      (boxes : List CalloutBox)
      → p.include_company_name ≡ false
      → p.callout_boxes ≡ some boxes
      → (texts.scrub account_id p.editable_body == "") ≡ false
      → public_page false
          (touched now (published_page texts now options (scrub_page texts account_id p)) p)
        ≡ record {
          title = texts.scrub account_id p.title;
          subtitle = scrub_subtitle (texts.scrub account_id) p.subtitle;
          body = texts.scrub account_id p.editable_body;
          callout_boxes = map (scrub_box texts account_id) boxes;
        }
  unfolding public_page published_page scrub_page
  served now options account_id p boxes anonymous shown filled =
      rw
        (
          anonymous,
          shown,
          filled,
          served_subtitle (texts.scrub account_id) p.subtitle,
          served_boxes (scrub_box texts account_id) boxes,
        )
        refl

  filled :
      (account_id : String) (p : LandingPage)
      → p.include_company_name ≡ false
      → ((s : Snapshot) → s.body ≡ "" → has_any (texts.issues s) ≡ true)
      → has_any (texts.issues (scrubbed_snapshot (scrub_page texts account_id p))) ≡ false
      → (texts.scrub account_id p.editable_body == "") ≡ false
  unfolding scrub_page
  filled account_id p anonymous refused valid =
      elim (Bool-cases (texts.scrub account_id p.editable_body == "")) [
        | inr e ↦ e
        | inl e ↦
            both_ways
              (refused (scrubbed_snapshot (scrub_page texts account_id p))
                (rw anonymous ((string_equality.beq_iff _ _).0 e)))
              valid
      ]

  -- Where the page and its organization hide the names, a page that goes through `publish` is from
  -- then on got by exactly the visitors who may see it, and what they get has every text scrubbed:
  -- the title, the body, the subtitle, unless it is empty, and every callout box; and the search for
  -- names that are left found none in them. The checks are taken to refuse an empty body, the page
  -- to have a list of boxes, as `create` gives it, and its slug to lead to it.
  pub publish-public_page :
      (version_id : String) (now : ℕ) (page_id : String) (options : PublishOptions)
      (store store' : Store) {slug : String} {p : LandingPage} {boxes : List CalloutBox}
      → ((s : Snapshot) → s.body ≡ "" → has_any (texts.issues s) ≡ true)
      → find_page page_id store ≡ some p
      → find (λ q. q.slug == p.slug) store.pages ≡ some p
      → HidesNames p store
      → p.callout_boxes ≡ some boxes
      → publish texts version_id now page_id options store ≡ (store', ok slug)
      → (story : Story) × (find (λ s. s.id == p.story_id) store.stories ≡ some story)
        × (q : LandingPage) × (find_page page_id store' ≡ some q)
        × ((later : ℕ) (password : Option String) (w : PublicPage)
            → ((get_public_by_slug texts later p.slug password store').1 ≡ some w) ↔ (
                MaySee texts later password q
                × (record {
                  title = texts.scrub story.account_id p.title;
                  subtitle = scrub_subtitle (texts.scrub story.account_id) p.subtitle;
                  body = texts.scrub story.account_id p.editable_body;
                  callout_boxes = map (scrub_box texts story.account_id) boxes;
                }
                    ≡ w)))
        × (has_any (
              texts.leaked_terms story.account_id
                (scrubbed_snapshot (scrub_page texts story.account_id p)))
            ≡ false)
  unfolding published_page
  publish-public_page version_id now page_id options store store' {p} {boxes} refused found at_slug
        (anonymous, hidden_by) shown h =
      let (story, at_story, checked, written) =
        publish-eq-found texts version_id now options store store' page_id found h in
      let (unleaked, valid) = check_texts-eq-ok story.account_id p anonymous checked in
      let change = published_page texts now options (scrub_page texts story.account_id p) in
      let same =
        served now options story.account_id p boxes anonymous shown
          (filled story.account_id p anonymous refused valid) in
      (
        story,
        at_story,
        touched now change p,
        written,
        λ later password w.
            let (seen, shows) =
              hidden_names texts later p.slug password store' {p = touched now change p}
                (ap (find (λ q. q.slug == p.slug)) (
                    publish-pages texts version_id now options store store' page_id found at_story
                      checked h)
                  ∙ by_slug-write_page now p.slug change store (λ q. refl) at_slug)
                (
                  anonymous,
                  λ s e. hidden_by s (
                      sym (
                        ap (find (λ s. s.organization_id == p.organization_id)) (
                          publish-settings texts version_id now options store store' page_id found
                            at_story checked h))
                      ∙ e),
                )
                w in
            (λ k. let (m, e) = seen k in (m, sym same ∙ e), λ (m, e). shows (m, same ∙ e)),
        unleaked,
      )
