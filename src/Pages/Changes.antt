-- ===== src/Pages/Changes.antt =====
-- src/services/landing-page-editor.ts and landing-page-editor-admin.ts: taking a page down, deleting
-- it, rolling it back to an earlier version, and editing it.
use webappv.Common.{
  ℕ, String, Bool, true, false, not, ◌&&◌, Option, none, some, List, [], ◌∷◌, ◌++◌, if◌then◌else◌,
  nat_eq, ◌==◌, string_equality, select, find, Result, ok, throw,
}
use webappv.Pages.{
  CalloutBox, LandingPage, Version, Edit, Store, draft, published, archived, rolled_back, find_page,
  write_page, or_throw, proceed,
}
use webappv.Pages.Editor.{sync_story, or_unchanged, is_version_of, next_version, default_to}

-- A change of a page and the date of its story, which may fail with the change made.
unfoldable pub change_and_sync :
    (now : ℕ) → (LandingPage → LandingPage) → (page_id : String) → Store → Store × Result (Unit {0})
change_and_sync now change page_id store =
    or_throw "No record was found for an update." store (find_page page_id store) (λ p.
      let written = write_page now page_id change store in
      proceed written (sync_story p.story_id written) (λ synced. (synced, ok tt)))

unfoldable pub archive : (now : ℕ) → (page_id : String) → Store → Store × Result (Unit {0})
archive now = change_and_sync now (λ p. record p { status = archived })

unfoldable pub unpublish : (now : ℕ) → (page_id : String) → Store → Store × Result (Unit {0})
unpublish now = change_and_sync now (λ p. record p { status = draft; published_at = none })

-- `deleteLandingPage`; the versions and the edits of the page go with it
unfoldable pub delete_page : (page_id : String) → Store → Store × Result (Unit {0})
delete_page page_id store =
    or_throw "No record was found for a delete." store (find_page page_id store) (λ p.
      let deleted = (record store {
        pages = select (λ q. not (q.id == page_id)) store.pages;
        versions = select (λ v. not (v.landing_page_id == page_id)) store.versions;
        edits = select (λ e. not (e.landing_page_id == page_id)) store.edits;
      }) in
      (or_unchanged deleted (sync_story p.story_id deleted), ok tt))

-- the page as a rollback writes it
unfoldable pub rolled_back_page : (now : ℕ) → Version → LandingPage → LandingPage
rolled_back_page now v p = record p {
  title = v.title_snapshot;
  subtitle = v.subtitle_snapshot;
  editable_body = v.body_snapshot;
  callout_boxes = v.callout_boxes_snapshot;
  visibility = v.visibility_snapshot;
  expires_at = v.expires_at_snapshot;
  status = published;
  published_at = some now;
}

unfoldable pub rollback :
    (new_version_id : String)
    → (now : ℕ) → (page_id version_id : String) → Store
    → Store × Result (Unit {0})
rollback new_version_id now page_id version_id store =
    or_throw "No LandingPage found" store (find_page page_id store) (λ p.
      or_throw "Version not found for this landing page" store
        (find (λ v. v.id == version_id && is_version_of p v) store.versions)
        (λ v.
          let written = write_page now page_id (rolled_back_page now v) store in
          (
            record written {
              versions =
                  next_version rolled_back
                    (record v { id = new_version_id; published_at_snapshot = some now }) p
                    store.versions;
            },
            ok tt,
          )))

pub record UpdateInput : Type 0 where
  pub title : Option String
  pub subtitle : Option String
  pub editable_body : Option String
  pub callout_boxes : Option (List CalloutBox)
  pub expected_updated_at : Option ℕ

unfoldable pub updated_page : UpdateInput → LandingPage → LandingPage
updated_page input p = record p {
  title = default_to p.title input.title;
  subtitle = elim input.subtitle [ none ↦ p.subtitle | some s ↦ some s ];
  editable_body = default_to p.editable_body input.editable_body;
  callout_boxes = elim input.callout_boxes [ none ↦ p.callout_boxes | some boxes ↦ some boxes ];
}

-- the entry of the history where the body changes
abbrev pub edit_of : (user_id : String) → UpdateInput → LandingPage → List Edit
edit_of user_id input existing = elim input.editable_body [
  | none ↦ []
  | some body ↦
      if body == existing.editable_body
      then []
      else record {
        landing_page_id = existing.id;
        edited_by_id = user_id;
        previous_body = existing.editable_body;
        new_body = body;
      }
        ∷ []
]

-- `expectedUpdatedAt` is that of the page, where it is given
abbrev pub is_current : UpdateInput → LandingPage → Bool
is_current input p = elim input.expected_updated_at [
  | none ↦ true
  | some expected ↦ nat_eq p.updated_at expected
]

-- `ConcurrencyConflictError` where the page is not as expected
abbrev pub unless_stale : Bool → Store → Store × Result ℕ → Store × Result ℕ
unless_stale true store call = call
unless_stale false store call = (store, throw "Landing page was modified by another user.")

-- The write that follows the read of `existing`, on the store as it is by then: other requests may
-- have come between the two.
unfoldable pub write_update :
    (now : ℕ)
    → (user_id : String) → UpdateInput
    → (existing : LandingPage) → Store
    → Store × Result ℕ
write_update now user_id input existing store =
    or_throw "No LandingPage found" store (find_page existing.id store) (λ p.
      unless_stale (is_current input p) store (
        (
          record (write_page now existing.id (updated_page input) store) {
            edits = store.edits ++ edit_of user_id input existing;
          },
          ok now,
        )))

unfoldable pub update :
    (now : ℕ) → (page_id user_id : String) → UpdateInput → Store → Store × Result ℕ
update now page_id user_id input store =
    or_throw "No LandingPage found" store (find_page page_id store) (λ existing.
      unless_stale (is_current input existing) store
        (write_update now user_id input existing store))
