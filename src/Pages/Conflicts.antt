-- ===== src/Pages/Conflicts.antt =====
-- src/services/landing-page-editor.ts: `expectedUpdatedAt` of `update`.
use webappv.Common.{
  ℕ, String, ◌≡◌, refl, ◌∙◌, ap, ◌+◌, false, Option, some, ◌++◌, find, nat_eq, ◌==◌,
  string_equality, Result, ok, throw,
}
use webappv.Pages.{LandingPage, Store, find_page, write_page, or_throw}
use webappv.Pages.Editor.{Texts}
use webappv.Pages.Changes.{
  UpdateInput, is_current, updated_page, edit_of, unless_stale, write_update, update,
}
use webappv.Pages.Public.{PublicPage, get_public_by_slug}
use webappv.Pages.Visits.{shown, hidden}
use webappv.Pages.Writes.{touched, write_update-eq-ok, find_page-write_page}

abbrev count_view : LandingPage → LandingPage
count_view q = record q { view_count = q.view_count + 1 }

stale :
    (input : UpdateInput) (expected : ℕ) (p : LandingPage)
    → input.expected_updated_at ≡ some expected
    → (nat_eq p.updated_at expected) ≡ false
    → is_current input p ≡ false
stale input expected p e n = rw (e, n)

refused :
    (now : ℕ) (user_id : String) (input : UpdateInput) (existing : LandingPage) (store : Store)
    {p : LandingPage}
    → find_page existing.id store ≡ some p
    → is_current input p ≡ false
    → write_update now user_id input existing store
      ≡ (store, throw "Landing page was modified by another user.")
unfolding write_update
refused now user_id input existing store found n =
    ap (λ o. or_throw "No LandingPage found" store o write) found ∙ rw n refl
  where
    write : LandingPage → Store × Result ℕ
    write q = unless_stale (is_current input q) store (
      record (write_page now existing.id (updated_page input) store) {
        edits = store.edits ++ edit_of user_id input existing;
      },
      ok now,
    )

-- Of two updates of a page that were sent for the same `updatedAt`, however the reads and the
-- writes of the two requests alternate, the second write is refused and changes nothing, unless the
-- first one happened in the very millisecond that both expect.
pub write_update-refuses :
    (now later : ℕ) (user_id other_id : String) (input input' : UpdateInput)
    (existing existing' : LandingPage) (store store' : Store) {at : ℕ} (expected : ℕ)
    → existing'.id ≡ existing.id
    → input'.expected_updated_at ≡ some expected
    → nat_eq now expected ≡ false
    → write_update now user_id input existing store ≡ (store', ok at)
    → write_update later other_id input' existing' store'
      ≡ (store', throw "Landing page was modified by another user.")
write_update-refuses now later user_id other_id input input' existing existing' store store'
      expected same e n h =
    let (p, _, _, written, _) = write_update-eq-ok now user_id input existing store h in
    refused later other_id input' existing' store' (ap (λ i. find_page i store') same ∙ written)
      (stale input' expected (touched now (updated_page input) p) e n)

-- A visit of a published page counts as a change of it: an editor who had the page open before the
-- visit gets the conflict error on the next save, although nobody changed the page.
pub visit-refuses :
    (texts : Texts) (now later : ℕ) (slug user_id : String) (password : Option String)
    (input : UpdateInput) (store : Store) {p : LandingPage} {w : PublicPage}
    → find (λ p. p.slug == slug) store.pages ≡ some p
    → find_page p.id store ≡ some p
    → input.expected_updated_at ≡ some p.updated_at
    → nat_eq now p.updated_at ≡ false
    → (get_public_by_slug texts now slug password store).1 ≡ some w
    → (update later p.id user_id input (get_public_by_slug texts now slug password store).0).1
      ≡ throw "Landing page was modified by another user."
unfolding update
visit-refuses texts now later slug user_id password input store {p} at_slug found e n h =
    let (open_page, _) = hidden texts now slug password store p at_slug h in
    let visited = write_page now p.id count_view store in
    let at_page : find_page p.id visited ≡ some (touched now count_view p) =
      find_page-write_page now p.id count_view store (λ q. refl) found in
    ap (λ r. (update later p.id user_id input r.0).1)
      (shown texts now slug password store p at_slug open_page)
    ∙ ap
        (λ o.
          (or_throw "No LandingPage found" visited o (λ existing.
            unless_stale (is_current input existing) visited
              (write_update later user_id input existing visited))).1)
        at_page
    ∙ rw (stale input p.updated_at (touched now count_view p) e n) refl
