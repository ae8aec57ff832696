-- ===== src/Lifecycle.antt =====
-- src/services/lifecycle-stage.ts and src/services/lifecycle-stage-service.ts: the stage of a story
-- or page from its latest request for approval. `before` is `a.localeCompare(b) < 0`.
use webappv.Common.{
  ℕ, String, Bool, true, false, ◌&&◌, ◌||◌, Option, none, some, List, [], ◌∷◌, if◌then◌else◌, ltb,
  nat_eq,
}
pub mod Latest
pub mod Tests

pub data LifecycleStage : Type 0 where
  draft in_review approved published : LifecycleStage

-- `status` of a request; any other text counts as none
pub data ReviewStatus : Type 0 where
  pending was_approved rejected other : ReviewStatus

pub record DatedApproval : Type 0 where
  pub id : String
  pub status : ReviewStatus
  pub created_at : ℕ

unfoldable pub resolve_lifecycle_stage :
    (published_at : Option ℕ) → (latest_status : Option ReviewStatus) → LifecycleStage
resolve_lifecycle_stage (some t) status = published
resolve_lifecycle_stage none (some pending) = in_review
resolve_lifecycle_stage none (some was_approved) = approved
resolve_lifecycle_stage none _ = draft

module _ (before : String → String → Bool) where
  -- `compareApprovalRecency(a, b) < 0`: `a` is more recent
  unfoldable pub is_newer : DatedApproval → DatedApproval → Bool
  is_newer a b =
      ltb b.created_at a.created_at || (nat_eq b.created_at a.created_at && before b.id a.id)

  -- an insertion that keeps the order of equals, as `Array.prototype.sort` does
  abbrev pub insert : DatedApproval → List DatedApproval → List DatedApproval
  insert a [] = a ∷ []
  insert a (b ∷ sorted) =
      let rest = insert a sorted in if is_newer b a then b ∷ rest else a ∷ b ∷ sorted

  abbrev pub sort : List DatedApproval → List DatedApproval
  sort [] = []
  sort (a ∷ approvals) = insert a (sort approvals)

  abbrev pub first : List DatedApproval → Option DatedApproval
  first [] = none
  first (a ∷ approvals) = some a

  -- `pickLatestApproval`, which a page's stage uses
  unfoldable pub pick_latest_approval : List DatedApproval → Option DatedApproval
  pick_latest_approval approvals = first (sort approvals)

  -- one turn of the loop over the approvals of a story
  abbrev pub latest_of : Option DatedApproval → DatedApproval → DatedApproval
  latest_of none a = a
  latest_of (some existing) a = if is_newer a existing then a else existing

  -- the entry of `latestByStory` after the loop
  unfoldable pub latest_by_story : Option DatedApproval → List DatedApproval → Option DatedApproval
  latest_by_story latest [] = latest
  latest_by_story latest (a ∷ approvals) = latest_by_story (some (latest_of latest a)) approvals

abbrev pub status_of : Option DatedApproval → Option ReviewStatus
status_of none = none
status_of (some a) = some a.status

-- the stage of a story, of whose requests and its pages' these are the approvals
unfoldable pub resolve_story_stage :
    (before : String → String → Bool)
    → (published_at : Option ℕ) → List DatedApproval
    → LifecycleStage
resolve_story_stage before published_at approvals =
    resolve_lifecycle_stage published_at (status_of (latest_by_story before none approvals))

unfoldable pub resolve_page_stage :
    (before : String → String → Bool)
    → (published_at : Option ℕ) → List DatedApproval
    → LifecycleStage
resolve_page_stage before published_at approvals =
    resolve_lifecycle_stage published_at (status_of (pick_latest_approval before approvals))
