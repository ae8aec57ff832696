-- ===== src/Pages/Viewers.antt =====
-- src/services/landing-page-editor.ts, `getPublicBySlug`: who may see a page.
use text.Mathlib.TextEquality.{eq_iff}
use webappv.Common.{
  ℕ, String, ◌≤◌, ◌≡◌, ◌≢◌, refl, ◌↔◌, inl, inr, Bool, true, false, Option, none, some, ◌==◌,
  string_equality, arith, ltb, Bool-cases,
}
use webappv.Setup.Wizard.{Visibility}
use webappv.Pages.{LandingPage, published, Store}
use webappv.Pages.Editor.{Texts}
use webappv.Pages.Public.{opens}
use webappv.Pages.Visits.{IsOpen}

-- A visitor may see a page: it is published, not yet past its expiry, shared by its link, and the
-- visitor's password verifies against the page's, if it has one.
pub record MaySee (texts : Texts) (now : ℕ) (password : Option String) (p : LandingPage)
    : Type 0 where
  pub live : p.status ≡ published
  pub in_time : (t : ℕ) → p.expires_at ≡ some t → now ≤ t
  pub shared : p.visibility ≡ Visibility.shared_with_link
  pub unlocked :
      (hash : String)
      → p.password ≡ some hash
      → hash ≢ ""
      → (word : String) × (password ≡ some word)
        × (word ≢ "")
        × (texts.verify_password word hash ≡ true)

abbrev Unlocks : Texts → (given stored : Option String) → Type 0
Unlocks texts given stored =
    (hash : String)
    → stored ≡ some hash
    → hash ≢ ""
    → (word : String) × (given ≡ some word) × (word ≢ "") × (texts.verify_password word hash ≡ true)

opens_sound :
    (texts : Texts) (given stored : Option String)
    → opens texts given stored ≡ true
    → Unlocks texts given stored
unfolding opens
opens_sound texts given none h hash e n = cc
opens_sound texts none (some hash') h hash e n = absurd (ground (arith, eq_iff hash' ""))
opens_sound texts (some word) (some hash') h hash e n = (
  word,
  refl,
  λ w. ground (arith, eq_iff hash' "", eq_iff word ""),
  ground (arith, eq_iff hash' "", eq_iff word ""),
)

opens_complete :
    (texts : Texts) (given stored : Option String)
    → Unlocks texts given stored
    → opens texts given stored ≡ true
unfolding opens
opens_complete texts given none u = refl
opens_complete texts given (some hash) u = elim (Bool-cases (hash == "")) [
  | inl e ↦ ground arith
  | inr e ↦
      let (word, g, w, v) = u hash refl (λ q. ground (arith, eq_iff hash "")) in
      ground (arith, eq_iff word "")
]

pub may_see :
    (texts : Texts) (now : ℕ) (slug : String) (password : Option String) (store : Store)
    (p : LandingPage)
    → IsOpen texts now slug password store p ↔ MaySee texts now password p
may_see texts now slug password store p = (
  λ (s, e, v, o). record {
    live = ground arith;
    in_time = λ t q. ground arith;
    shared = ground arith;
    unlocked = opens_sound texts password p.password o;
  },
  λ m. (
    ground (arith, m.live),
    in_time_complete p.expires_at m.in_time,
    ground (arith, m.shared),
    opens_complete texts password p.password m.unlocked,
  ),
)
  where
    in_time_complete :
        (o : Option ℕ)
        → ((t : ℕ) → o ≡ some t → now ≤ t)
        → (elim o as (λ _. Bool) [ none ↦ false | some t ↦ ltb t now ]) ≡ false
    in_time_complete none h = refl
    in_time_complete (some t) h = ground (arith, h t refl)
