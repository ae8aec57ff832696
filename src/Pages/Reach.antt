-- ===== src/Pages/Reach.antt =====
-- The operations of src/services/landing-page-editor.ts and
-- src/services/landing-page-editor-admin.ts in any order, as steps between stores.
use webappv.Common.{
  ℕ, String, ◌≡◌, refl, Bool, true, false, not, Option, none, some, any, ◌==◌, string_equality,
  Result, ok, throw, Bool-cases, inl, inr, if◌then◌else◌, subst, sym, arith, ◌>>=◌, select,
}
use webappv.Pages.{
  LandingPage, Story, Store, superseded, rolled_back, find_page, write_page, or_throw, proceed,
  is_published, draft, archived,
}
use webappv.Pages.Editor.{
  Texts, PublishOptions, or_unchanged, sync_story, create_artifact_version, write_published,
  publish, version_of, published_page, scrub_page, check_texts,
}
use webappv.Pages.Changes.{
  UpdateInput, change_and_sync, archive, unpublish, delete_page, rollback, write_update, is_current,
}
use webappv.Pages.Public.{ScheduledJob, ScheduledResult, get_public_by_slug, run_scheduled}
use webappv.Pages.Versions.{IsVersioned, next-IsVersioned, deleted-IsVersioned}

-- one operation, with whatever arguments, also where it throws
pub data Step (texts : Texts) (store : Store) : Store → Type 0 where
  publishing :
      (version_id : String) (now : ℕ) (page_id : String) (options : PublishOptions)
      → Step texts store (publish texts version_id now page_id options store).0
  scheduled :
      (version_id : String) (now : ℕ) (job : ScheduledJob)
      → Step texts store (run_scheduled texts version_id now job store).0
  archiving : (now : ℕ) (page_id : String) → Step texts store (archive now page_id store).0
  unpublishing : (now : ℕ) (page_id : String) → Step texts store (unpublish now page_id store).0
  deleting : (page_id : String) → Step texts store (delete_page page_id store).0
  rolling_back :
      (new_version_id : String) (now : ℕ) (page_id version_id : String)
      → Step texts store (rollback new_version_id now page_id version_id store).0
  writing :
      (now : ℕ) (user_id : String) (input : UpdateInput) (existing : LandingPage)
      → Step texts store (write_update now user_id input existing store).0
  visiting :
      (now : ℕ) (slug : String) (password : Option String)
      → Step texts store (get_public_by_slug texts now slug password store).0

-- any number of them
pub data Steps (texts : Texts) (store : Store) : Store → Type 0 where
  start : Steps texts store store
  step :
      {middle after : Store}
      → Steps texts store middle
      → Step texts middle after
      → Steps texts store after

module _ {A X : Type 0} (P : Store → Type 0) where
  or_throw-keeps :
      (message : String) (store : Store) (o : Option A) (rest : A → Store × Result X)
      → P store
      → ((a : A) → P (rest a).0)
      → P (or_throw message store o rest).0
  or_throw-keeps message store none rest h k = h
  or_throw-keeps message store (some a) rest h k = k a

  proceed-keeps :
      (store : Store) (call : Result A) (rest : A → Store × Result X)
      → P store
      → ((a : A) → call ≡ ok a → P (rest a).0)
      → P (proceed store call rest).0
  proceed-keeps store (throw message) rest h k = h
  proceed-keeps store (ok a) rest h k = k a refl

chosen :
    {X : Type 0} (P : Store → Type 0) (a b : Bool) (store : Store) (x y : X) (z : Store × X)
    → P store
    → P z.0
    → P (if a then (store, x) else if b then (store, y) else z).0
chosen P true b store x y z h k = h
chosen P false true store x y z h k = h
chosen P false false store x y z h k = k

visit-versions :
    (texts : Texts) (now : ℕ) (slug : String) (password : Option String) (store : Store)
    → (get_public_by_slug texts now slug password store).0.versions ≡ store.versions
unfolding get_public_by_slug
visit-versions texts now slug password store = ground arith

module _ (texts : Texts) (p : LandingPage) where
  abbrev Holds : Store → Type 0
  Holds store = IsVersioned p store.versions

  sync-Holds :
      (story_id : String) (store : Store)
      → Holds store
      → Holds (or_unchanged store (sync_story story_id store))
  unfolding sync_story
  sync-Holds story_id store h = elim (Bool-cases (any (λ s. s.id == story_id) store.stories)) [
    | inl e ↦ rw e h
    | inr e ↦ rw e h
  ]

  create-Holds :
      (version_id : String) (at : ℕ) (page_id : String) (store : Store)
      → Holds store
      → Holds (create_artifact_version version_id at page_id store).0
  unfolding create_artifact_version
  create-Holds version_id at page_id store h =
      or_throw-keeps Holds _ store (find_page page_id store) _ h
        (λ q. next-IsVersioned superseded refl (version_of version_id at q) p q store.versions h)

  publish-Holds :
      (version_id : String) (now : ℕ) (page_id : String) (options : PublishOptions) (store : Store)
      → Holds store
      → Holds (publish texts version_id now page_id options store).0
  unfolding publish write_published
  publish-Holds version_id now page_id options store h =
      or_throw-keeps Holds _ store (find_page page_id store) _ h (λ q.
        or_throw-keeps Holds _ store _ _ h (λ story.
          proceed-keeps Holds store (check_texts texts story.account_id q) _ h (λ _ _.
            create-Holds version_id now q.id _ (sync-Holds q.story_id (written q story) h))))
    where
      written : LandingPage → Story → Store
      written q story =
          write_page now q.id
            (published_page texts now options (scrub_page texts story.account_id q)) store

  change-Holds :
      (now : ℕ) (change : LandingPage → LandingPage) (page_id : String) (store : Store)
      → Holds store
      → Holds (change_and_sync now change page_id store).0
  unfolding change_and_sync
  change-Holds now change page_id store h =
      or_throw-keeps Holds _ store (find_page page_id store) _ h (λ q.
        proceed-keeps Holds (write_page now page_id change store)
          (sync_story q.story_id (write_page now page_id change store)) (λ synced. (synced, ok tt))
          h
          (λ synced e.
            subst (λ r. Holds (or_unchanged (write_page now page_id change store) r)) e
              (sync-Holds q.story_id (write_page now page_id change store) h)))

  delete-Holds :
      (page_id : String) (store : Store) → Holds store → Holds (delete_page page_id store).0
  unfolding delete_page
  delete-Holds page_id store h = or_throw-keeps Holds _ store (find_page page_id store) _ h (λ q.
      sync-Holds q.story_id
        (record store {
          pages = select (λ r. not (r.id == page_id)) store.pages;
          versions = select (λ v. not (v.landing_page_id == page_id)) store.versions;
          edits = select (λ e. not (e.landing_page_id == page_id)) store.edits;
        })
        (deleted-IsVersioned p (λ v. not (v.landing_page_id == page_id)) store.versions h))

  rollback-Holds :
      (new_version_id : String) (now : ℕ) (page_id version_id : String) (store : Store)
      → Holds store
      → Holds (rollback new_version_id now page_id version_id store).0
  unfolding rollback
  rollback-Holds new_version_id now page_id version_id store h =
      or_throw-keeps Holds _ store (find_page page_id store) _ h (λ q.
        or_throw-keeps Holds _ store _ _ h (λ v.
          next-IsVersioned rolled_back refl
            (record v { id = new_version_id; published_at_snapshot = some now }) p q store.versions
            h))

  write-Holds :
      (now : ℕ) (user_id : String) (input : UpdateInput) (existing : LandingPage) (store : Store)
      → Holds store
      → Holds (write_update now user_id input existing store).0
  unfolding write_update
  write-Holds now user_id input existing store h =
      or_throw-keeps Holds _ store (find_page existing.id store) _ h
        (λ q. elim (Bool-cases (is_current input q)) [ inl e ↦ rw e h | inr e ↦ rw e h ])

  visit-Holds :
      (now : ℕ) (slug : String) (password : Option String) (store : Store)
      → Holds store
      → Holds (get_public_by_slug texts now slug password store).0
  visit-Holds now slug password store h =
      subst (λ v. IsVersioned p v) (sym (visit-versions texts now slug password store)) h

  schedule-Holds :
      (version_id : String) (now : ℕ) (job : ScheduledJob) (store : Store)
      → Holds store
      → Holds (run_scheduled texts version_id now job store).0
  unfolding run_scheduled
  schedule-Holds version_id now job store h = go (find_page job.page_id store)
    where
      go :
          (o : Option LandingPage)
          → Holds
              (elim o as (λ _. Store × Result ScheduledResult) [
                | none ↦ (store, ok (ScheduledResult.not_published "target_not_found"))
                | some q ↦
                    if not (q.organization_id == job.organization_id)
                    then (store, ok (ScheduledResult.not_published "target_not_found"))
                    else if is_published q.status
                    then (store, ok (ScheduledResult.not_published "already_published"))
                    else let (store', result) =
                        publish texts version_id now job.page_id job.options store in
                      (store', result >>= λ slug. ok (ScheduledResult.published slug))
              ]).0
      go none = h
      go (some q) =
          chosen Holds (not (q.organization_id == job.organization_id)) (is_published q.status)
            store (ok (ScheduledResult.not_published "target_not_found"))
            (ok (ScheduledResult.not_published "already_published"))
            (
              (publish texts version_id now job.page_id job.options store).0,
              (publish texts version_id now job.page_id job.options store).1 >>= λ slug.
                  ok (ScheduledResult.published slug),
            )
            h (publish-Holds version_id now job.page_id job.options store h)

  step-Holds : {store after : Store} → Step texts store after → Holds store → Holds after
  unfolding archive unpublish
  step-Holds {store} (Step.publishing version_id now page_id options) h =
      publish-Holds version_id now page_id options store h
  step-Holds {store} (Step.scheduled version_id now job) h =
      schedule-Holds version_id now job store h
  step-Holds {store} (Step.archiving now page_id) h =
      change-Holds now (λ q. record q { status = archived }) page_id store h
  step-Holds {store} (Step.unpublishing now page_id) h =
      change-Holds now (λ q. record q { status = draft; published_at = none }) page_id store h
  step-Holds {store} (Step.deleting page_id) h = delete-Holds page_id store h
  step-Holds {store} (Step.rolling_back new_version_id now page_id version_id) h =
      rollback-Holds new_version_id now page_id version_id store h
  step-Holds {store} (Step.writing now user_id input existing) h =
      write-Holds now user_id input existing store h
  step-Holds {store} (Step.visiting now slug password) h = visit-Holds now slug password store h

  -- Under every sequence of the operations, also where some of them throw, a page keeps at most one
  -- active version, and no two of its versions get the same number.
  pub Steps-IsVersioned :
      {store after : Store}
      → Steps texts store after
      → IsVersioned p store.versions
      → IsVersioned p after.versions
  Steps-IsVersioned start h = h
  Steps-IsVersioned (step before last) h = step-Holds last (Steps-IsVersioned before h)
