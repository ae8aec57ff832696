-- ===== src/Pages/Shown.antt =====
-- src/services/landing-page-editor.ts, `getPublicBySlug`: which texts a visitor gets of a page.
use text.Mathlib.TextEquality.{eq_iff}
use webappv.Common.{
  ℕ, String, ◌≡◌, ◌≢◌, refl, ◌∙◌, ap, sym, ◌↔◌, ◌⊎◌, inl, inr, true, false, Option, none, some,
  List, [], ◌∷◌, find, ◌==◌, string_equality, arith, Bool-cases, Option-cases, both_ways,
}
use webappv.Pages.{CalloutBox, LandingPage, Settings, Store}
use webappv.Pages.Editor.{Texts, default_to}
use webappv.Pages.Public.{
  PublicPage, boxes_or, body_or, public_page, uses_original, get_public_by_slug,
}
use webappv.Pages.Visits.{shown, hidden, get_public_by_slug-some_iff}
use webappv.Pages.Viewers.{MaySee, may_see}

-- The page keeps its names for the public: by its own flag, or by its organization's setting.
abbrev pub KeepsNames : LandingPage → Store → Type 0
KeepsNames p store =
    (p.include_company_name ≡ true)
    ⊎ ((s : Settings) × (find (λ s. s.organization_id == p.organization_id) store.settings ≡ some s)
        × (s.anonymization_enabled ≡ false))

abbrev pub HidesNames : LandingPage → Store → Type 0
HidesNames p store =
    (p.include_company_name ≡ false)
    × ((s : Settings)
        → find (λ s. s.organization_id == p.organization_id) store.settings ≡ some s
        → s.anonymization_enabled ≡ true)

pub record IsOwn (p : LandingPage) (w : PublicPage) : Type 0 where
  pub title : w.title ≡ p.title
  pub subtitle : w.subtitle ≡ p.subtitle
  pub body : w.body ≡ p.editable_body
  pub boxes : w.callout_boxes ≡ default_to [] p.callout_boxes

-- each text is the scrubbed one, and the page's own where there is none
pub record IsScrubbed (p : LandingPage) (w : PublicPage) : Type 0 where
  pub title : (p.scrubbed_title ≡ some w.title) ⊎ ((p.scrubbed_title ≡ none) × (w.title ≡ p.title))
  pub subtitle :
      ((p.scrubbed_subtitle ≢ none) × (w.subtitle ≡ p.scrubbed_subtitle))
      ⊎ ((p.scrubbed_subtitle ≡ none) × (w.subtitle ≡ p.subtitle))
  pub body :
      ((p.scrubbed_body ≢ "") × (w.body ≡ p.scrubbed_body))
      ⊎ ((p.scrubbed_body ≡ "") × (w.body ≡ p.editable_body))
  pub boxes :
      ((w.callout_boxes ≢ []) × (p.scrubbed_callout_boxes ≡ some w.callout_boxes))
      ⊎ ((default_to [] p.scrubbed_callout_boxes ≡ [])
          × (w.callout_boxes ≡ default_to [] p.callout_boxes))

same_page :
    (v w : PublicPage)
    → v.title ≡ w.title
    → v.subtitle ≡ w.subtitle
    → v.body ≡ w.body
    → v.callout_boxes ≡ w.callout_boxes
    → v ≡ w
same_page v w t s b c = ground arith

uses_original_sound :
    (p : LandingPage) (store : Store) → uses_original p store ≡ true → KeepsNames p store
uses_original_sound p store h =
    elim (Option-cases (find (λ s. s.organization_id == p.organization_id) store.settings)) [
      | inl e ↦ inl (ground arith)
      | inr (s, e) ↦ elim (Bool-cases s.anonymization_enabled) [
        | inl f ↦ inl (ground arith)
        | inr f ↦ inr (s, e, f)
      ]
    ]

hides_sound : (p : LandingPage) (store : Store) → uses_original p store ≡ false → HidesNames p store
hides_sound p store h = (ground arith, λ s e. ground arith)

keeps_complete :
    (p : LandingPage) (store : Store) → KeepsNames p store → uses_original p store ≡ true
keeps_complete p store (inl e) = ground arith
keeps_complete p store (inr (s, e, f)) = ground arith

hides_complete :
    (p : LandingPage) (store : Store) → HidesNames p store → uses_original p store ≡ false
hides_complete p store (n, h) =
    elim (Option-cases (find (λ s. s.organization_id == p.organization_id) store.settings)) [
      | inl e ↦ ground arith
      | inr (s, e) ↦ ground (arith, h s e)
    ]

IsOwn-iff : (p : LandingPage) (w : PublicPage) → (public_page true p ≡ w) ↔ IsOwn p w
unfolding public_page
IsOwn-iff p w = (
  λ h. record {
    title = ap (λ v. v.title) (sym h);
    subtitle = ap (λ v. v.subtitle) (sym h);
    body = ap (λ v. v.body) (sym h);
    boxes = ap (λ v. v.callout_boxes) (sym h);
  },
  λ o. same_page (public_page true p) w (sym o.title) (sym o.subtitle) (sym o.body) (sym o.boxes),
)

served_title :
    (own : String) (scrubbed : Option String) (t : String)
    → (default_to own scrubbed ≡ t) ↔ ((scrubbed ≡ some t) ⊎ ((scrubbed ≡ none) × (t ≡ own)))
served_title own none t = (λ h. inr (refl, sym h), λ h. ground arith)
served_title own (some s) t = (λ h. inl (ap some h), λ h. ground arith)

served_subtitle :
    (own scrubbed t : Option String)
    → ((elim scrubbed as (λ _. Option String) [ none ↦ own | some s ↦ some s ]) ≡ t)
      ↔ (((scrubbed ≢ none) × (t ≡ scrubbed)) ⊎ ((scrubbed ≡ none) × (t ≡ own)))
served_subtitle own none t = (λ h. inr (refl, sym h), λ h. ground arith)
served_subtitle own (some s) t = (λ h. inl (λ e. cc, sym h), λ h. ground arith)

served_body :
    (own scrubbed t : String)
    → (body_or scrubbed own ≡ t)
      ↔ (((scrubbed ≢ "") × (t ≡ scrubbed)) ⊎ ((scrubbed ≡ "") × (t ≡ own)))
served_body own scrubbed t = elim (Bool-cases (scrubbed == "")) [
  | inl e ↦ (
    λ h. inr (ground (arith, eq_iff scrubbed ""), ground arith),
    λ h. ground (arith, eq_iff scrubbed ""),
  )
  | inr e ↦ (
    λ h. inl (λ q. ground (arith, eq_iff scrubbed ""), ground arith),
    λ h. ground (arith, eq_iff scrubbed ""),
  )
]

served_boxes :
    (own scrubbed : Option (List CalloutBox)) (t : List CalloutBox)
    → (boxes_or scrubbed own ≡ t) ↔ (
        ((t ≢ []) × (scrubbed ≡ some t))
        ⊎ ((default_to [] scrubbed ≡ []) × (t ≡ default_to [] own)))
served_boxes own none t = (λ h. inr (refl, sym h), λ h. ground arith)
served_boxes own (some []) t = (λ h. inr (refl, sym h), λ h. ground arith)
served_boxes own (some (b ∷ bs)) t = (λ h. inl (λ e. ground arith, ap some h), λ h. ground arith)

IsScrubbed-iff : (p : LandingPage) (w : PublicPage) → (public_page false p ≡ w) ↔ IsScrubbed p w
unfolding public_page
IsScrubbed-iff p w = (
  λ h. record {
    title = (served_title p.title p.scrubbed_title w.title).0 (ap (λ v. v.title) h);
    subtitle =
        (served_subtitle p.subtitle p.scrubbed_subtitle w.subtitle).0 (ap (λ v. v.subtitle) h);
    body = (served_body p.editable_body p.scrubbed_body w.body).0 (ap (λ v. v.body) h);
    boxes =
        (served_boxes p.callout_boxes p.scrubbed_callout_boxes w.callout_boxes).0
          (ap (λ v. v.callout_boxes) h);
  },
  λ o.
      same_page (public_page false p) w ((served_title p.title p.scrubbed_title w.title).1 o.title)
        ((served_subtitle p.subtitle p.scrubbed_subtitle w.subtitle).1 o.subtitle)
        ((served_body p.editable_body p.scrubbed_body w.body).1 o.body)
        ((served_boxes p.callout_boxes p.scrubbed_callout_boxes w.callout_boxes).1 o.boxes),
)

abbrev pub IsShown : LandingPage → Store → PublicPage → Type 0
IsShown p store w = (KeepsNames p store × IsOwn p w) ⊎ (HidesNames p store × IsScrubbed p w)

IsShown-iff :
    (p : LandingPage) (store : Store) (w : PublicPage)
    → (public_page (uses_original p store) p ≡ w) ↔ IsShown p store w
IsShown-iff p store w = elim (Bool-cases (uses_original p store)) [
  | inl e ↦ (
    λ h. inl (uses_original_sound p store e, (IsOwn-iff p w).0 (rw e at h)),
    λ s. elim s [
      | inl (k, o) ↦ ap (λ b. public_page b p) e ∙ (IsOwn-iff p w).1 o
      | inr (n, o) ↦ both_ways e (hides_complete p store n)
    ],
  )
  | inr e ↦ (
    λ h. inr (hides_sound p store e, (IsScrubbed-iff p w).0 (rw e at h)),
    λ s. elim s [
      | inl (k, o) ↦ both_ways (keeps_complete p store k) e
      | inr (n, o) ↦ ap (λ b. public_page b p) e ∙ (IsScrubbed-iff p w).1 o
    ],
  )
]

module _ (texts : Texts) (now : ℕ) (slug : String) (password : Option String) (store : Store) where
  -- The public gets a page exactly if the page with the slug is published, is not past its expiry,
  -- is shared by its link, and the password given verifies, where the page has one. Where the page
  -- or its organization keeps the names, what the public gets is the page's own texts; where both
  -- hide them, it is each scrubbed text, and the page's own where there is no scrubbed one.
  pub get_public_by_slug-shows_iff :
      (w : PublicPage)
      → ((get_public_by_slug texts now slug password store).1 ≡ some w) ↔ (
          (p : LandingPage) × (find (λ p. p.slug == slug) store.pages ≡ some p)
          × MaySee texts now password p
          × IsShown p store w)
  get_public_by_slug-shows_iff w = (
    λ h.
        let (p, found, o, same) =
          (get_public_by_slug-some_iff texts now slug password store w).0 h in
        (p, found, (may_see texts now slug password store p).0 o, (IsShown-iff p store w).0 same),
    λ (p, found, m, s).
        (get_public_by_slug-some_iff texts now slug password store w).1
          (p, found, (may_see texts now slug password store p).1 m, (IsShown-iff p store w).1 s),
  )

  -- A page whose names are hidden, as whoever may see it gets it.
  pub hidden_names :
      {p : LandingPage}
      → find (λ p. p.slug == slug) store.pages ≡ some p
      → HidesNames p store
      → (w : PublicPage)
      → ((get_public_by_slug texts now slug password store).1 ≡ some w)
        ↔ (MaySee texts now password p × (public_page false p ≡ w))
  hidden_names {p} found hides w = (
    λ h.
        let (o, same) = hidden texts now slug password store p found h in
        (
          (may_see texts now slug password store p).0 o,
          sym (ap (λ b. public_page b p) (hides_complete p store hides)) ∙ same,
        ),
    λ (m, same).
        ap (λ x. x.1)
          (shown texts now slug password store p found
            ((may_see texts now slug password store p).1 m))
        ∙ ap some (ap (λ b. public_page b p) (hides_complete p store hides) ∙ same),
  )
