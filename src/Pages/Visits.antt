-- ===== src/Pages/Visits.antt =====
-- src/services/landing-page-editor.ts: who sees a page, `getPublicBySlug`.
use webappv.Common.{
  ℕ, String, ◌+◌, if◌then◌else◌, some_injective, ◌≡◌, refl, ◌∙◌, ap, sym, ◌↔◌, Bool, true, false,
  not, Option, none, some, find, ◌==◌, string_equality, Option-cases, inl, inr,
}
use webappv.Pages.{LandingPage, Store, is_published, write_page}
use webappv.Pages.Editor.{Texts}
use webappv.Pages.Public.{
  PublicPage, has_expired, is_private, opens, public_page, uses_original, get_public_by_slug,
}

none-absurd : {w : PublicPage} → ◌≡◌ {A = Option PublicPage} none (some w) → ⊥
none-absurd h = cc

-- the four tests one after the other
abbrev gated : (a b c d : Bool) → Store → Store × Option PublicPage → Store × Option PublicPage
gated a b c d store served =
    if not a
    then (store, none)
    else if b
    then (store, none)
    else if c
    then (store, none)
    else if not d
    then (store, none)
    else served

gates :
    (a b c d : Bool) (store store' : Store) {v w : PublicPage}
    → (gated a b c d store (store', some v)).1 ≡ some w
    → (a ≡ true) × (b ≡ false) × (c ≡ false) × (d ≡ true) × (v ≡ w)
gates false b c d store store' h = cc
gates true true c d store store' h = cc
gates true false true d store store' h = cc
gates true false false false store store' h = cc
gates true false false true store store' h = (refl, refl, refl, refl, some_injective h)

module _ (texts : Texts) (now : ℕ) (slug : String) (password : Option String) (store : Store) where
  -- what a page must be for the public to see it
  abbrev pub IsOpen : LandingPage → Type 0
  IsOpen p =
      (is_published p.status ≡ true)
      × (has_expired now p ≡ false)
      × (is_private p.visibility ≡ false)
      × (opens texts password p.password ≡ true)

  abbrev pub at_page : Option LandingPage → Store × Option PublicPage
  at_page found = elim found [
    | none ↦ (store, none)
    | some p ↦
        gated (is_published p.status) (has_expired now p) (is_private p.visibility)
          (opens texts password p.password) store
          (
            write_page now p.id (λ q. record q { view_count = q.view_count + 1 }) store,
            some (public_page (uses_original p store) p),
          )
  ]

  pub at_found :
      {o : Option LandingPage}
      → find (λ p. p.slug == slug) store.pages ≡ o
      → get_public_by_slug texts now slug password store ≡ at_page o
  unfolding get_public_by_slug
  at_found found = ap at_page found

  pub shown :
      (p : LandingPage)
      → find (λ p. p.slug == slug) store.pages ≡ some p
      → IsOpen p
      → get_public_by_slug texts now slug password store ≡ (
        write_page now p.id (λ q. record q { view_count = q.view_count + 1 }) store,
        some (public_page (uses_original p store) p),
      )
  shown p found (s, e, v, o) = at_found found ∙ rw (s, e, v, o) refl

  pub hidden :
      (p : LandingPage) {w : PublicPage}
      → find (λ p. p.slug == slug) store.pages ≡ some p
      → (get_public_by_slug texts now slug password store).1 ≡ some w
      → IsOpen p × (public_page (uses_original p store) p ≡ w)
  hidden p {w} found h =
      let (s, e, v, o, same) =
        gates (is_published p.status) (has_expired now p) (is_private p.visibility)
          (opens texts password p.password) store _ (sym (ap (λ x. x.1) (at_found found)) ∙ h) in
      ((s, e, v, o), same)

  -- In terms of the tests of the code: the public gets a page exactly if the page with the slug is
  -- published, has not expired, is not
  -- private, and the password given opens it, where it has one; what it gets is the page's own texts
  -- or its scrubbed ones, by the setting of its organization and its own flag.
  pub get_public_by_slug-some_iff :
      (w : PublicPage)
      → ((get_public_by_slug texts now slug password store).1 ≡ some w) ↔ (
          (p : LandingPage) × (find (λ p. p.slug == slug) store.pages ≡ some p)
          × IsOpen p
          × (public_page (uses_original p store) p ≡ w))
  get_public_by_slug-some_iff w = (
    λ h. elim (Option-cases (find (λ p. p.slug == slug) store.pages)) [
      | inl e ↦ absurd (none-absurd (sym (ap (λ x. x.1) (at_found e)) ∙ h))
      | inr (p, e) ↦ let (o, same) = hidden p e h in (p, e, o, same)
    ],
    λ (p, e, open_page, same). ap (λ x. x.1) (shown p e open_page) ∙ ap some same,
  )
