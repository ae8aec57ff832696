-- ===== src/Lifecycle/Tests.antt =====
-- Stages on small lists of approvals.
use webappv.Common.{String, Bool, false, ◌≡◌, refl, none, List, [], ◌∷◌}
use webappv.Lifecycle.{
  approved, draft, DatedApproval, was_approved, rejected, pending, resolve_story_stage,
  resolve_page_stage, resolve_lifecycle_stage, pick_latest_approval, is_newer,
}
use webappv.Lifecycle.Latest.{resolve_story_stage-page}

-- a comparison that finds all ids alike
abbrev none_before : String → String → Bool
none_before a b = false

-- requested, rejected, then approved
abbrev three : List DatedApproval
three =
    (record { id = "r1"; status = pending; created_at = 10 })
    ∷ (record { id = "r3"; status = was_approved; created_at = 30 })
    ∷ (record { id = "r2"; status = rejected; created_at = 20 })
    ∷ []

resolve_story_stage-page_example :
    resolve_story_stage none_before none three ≡ resolve_page_stage none_before none three
resolve_story_stage-page_example =
    resolve_story_stage-page none_before (λ a b c h k. h) (λ a b c h k. refl) none three

three_approved : resolve_page_stage none_before none three ≡ approved
unfolding resolve_page_stage pick_latest_approval is_newer resolve_lifecycle_stage
three_approved = refl

none_draft : resolve_page_stage none_before none [] ≡ draft
unfolding resolve_page_stage pick_latest_approval resolve_lifecycle_stage
none_draft = refl
