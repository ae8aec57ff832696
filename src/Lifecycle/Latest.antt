-- ===== src/Lifecycle/Latest.antt =====
-- The latest approval in src/services/lifecycle-stage-service.ts: one loop, and the first of a sort.
use webappv.Common.{
  ℕ, String, ◌≡◌, refl, ◌∙◌, ap, sym, Bool, true, false, Option, none, some, List, [], ◌∷◌, arith,
  if◌then◌else◌, Bool-cases, inl, inr,
}
use webappv.Lifecycle.{
  DatedApproval, is_newer, insert, sort, first, pick_latest_approval, latest_of, latest_by_story,
  status_of, resolve_lifecycle_stage, resolve_story_stage, resolve_page_stage,
}

module _ (before : String → String → Bool)
    (trans : (a b c : String) → before a b ≡ true → before b c ≡ true → before a c ≡ true)
    (coarse : (a b c : String) → before a b ≡ false → before b c ≡ false → before a c ≡ false) where
  newer_trans :
      (a b c : DatedApproval)
      → is_newer before a b ≡ true
      → is_newer before b c ≡ true
      → is_newer before a c ≡ true
  unfolding is_newer
  newer_trans a b c h k = ground (arith, h, k, trans c.id b.id a.id)

  newer_coarse :
      (a b c : DatedApproval)
      → is_newer before a b ≡ false
      → is_newer before b c ≡ false
      → is_newer before a c ≡ false
  unfolding is_newer
  newer_coarse a b c h k = ground (arith, h, k, coarse c.id b.id a.id)

  -- the better of an approval and the best of the rest
  abbrev with_rest : DatedApproval → Option DatedApproval → DatedApproval
  with_rest a none = a
  with_rest a (some b) = if is_newer before b a then b else a

  first-insert :
      (a : DatedApproval) (sorted : List DatedApproval)
      → first before (insert before a sorted) ≡ some (with_rest a (first before sorted))
  first-insert a [] = refl
  first-insert a (b ∷ sorted) = elim (Bool-cases (is_newer before b a)) [
    | inl e ↦ rw e refl
    | inr e ↦ rw e refl
  ]

  -- An approval, the next one, and the best of the others: in either grouping.
  regroup :
      (l a : DatedApproval) (o : Option DatedApproval)
      → with_rest (latest_of before (some l) a) o ≡ with_rest l (some (with_rest a o))
  regroup l a none = refl
  regroup l a (some b) = elim (Bool-cases (is_newer before a l)) [
    | inl e ↦ elim (Bool-cases (is_newer before b a)) [
      | inl f ↦ rw (e, f, newer_trans b a l f e) refl
      | inr f ↦ rw (e, f, e) refl
    ]
    | inr e ↦ elim (Bool-cases (is_newer before b a)) [
      | inl f ↦ rw (e, f) refl
      | inr f ↦ rw (e, f, newer_coarse b a l f e, e) refl
    ]
  ]

  loop :
      (l : DatedApproval) (approvals : List DatedApproval)
      → latest_by_story before (some l) approvals
        ≡ some (with_rest l (first before (sort before approvals)))
  unfolding latest_by_story
  loop l [] = refl
  loop l (a ∷ approvals) =
      loop (latest_of before (some l) a) approvals
      ∙ ap some (regroup l a (first before (sort before approvals)))
      ∙ ap (λ o. some (with_rest l o)) (sym (first-insert a (sort before approvals)))

  latest_by_story-pick :
      (approvals : List DatedApproval)
      → latest_by_story before none approvals ≡ pick_latest_approval before approvals
  unfolding latest_by_story pick_latest_approval
  latest_by_story-pick [] = refl
  latest_by_story-pick (a ∷ approvals) =
      loop a approvals ∙ sym (first-insert a (sort before approvals))

  -- The loop that a story's stage uses and the sort that a page's stage uses agree, whatever the
  -- order the approvals come in: a story and a page with the same approvals and the same date of
  -- publication are at the same stage. The comparison of ids is taken to be a strict weak order.
  pub resolve_story_stage-page :
      (published_at : Option ℕ) (approvals : List DatedApproval)
      → resolve_story_stage before published_at approvals
        ≡ resolve_page_stage before published_at approvals
  unfolding resolve_story_stage resolve_page_stage
  resolve_story_stage-page published_at approvals =
      ap (λ o. resolve_lifecycle_stage published_at (status_of o)) (latest_by_story-pick approvals)
