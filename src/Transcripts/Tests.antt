-- ===== src/Transcripts/Tests.antt =====
-- Merged transcripts on small lists of calls.
use webappv.Common.{◌≡◌, refl, none, some, List, [], ◌∷◌, map, ltb, length}
use webappv.Transcripts.{
  newest_first, Entry, MergeOptions, facing, total_words, merge_transcripts, apply_truncation,
  drop_over,
}
use webappv.Transcripts.Cuts.{IsCut, merge_transcripts-IsCut}

abbrev calls : List Entry
calls =
    record { call_id = "c1"; occurred_at = 1; word_count = 70 }
    ∷ record { call_id = "c2"; occurred_at = 2; word_count = 170 }
    ∷ record { call_id = "c3"; occurred_at = 3; word_count = 70 }
    ∷ []

abbrev unset : MergeOptions
unset = record { max_words = none; truncation_mode = none }

abbrev short : MergeOptions
short = record { max_words = some 310; truncation_mode = some newest_first }

-- By default the three calls fit; within 310 words only the first two or the last two do; and one
-- call stays where none fits.
merged :
    ((merge_transcripts unset unset calls).included_calls ≡ 3)
    × (map (λ e. e.call_id) (merge_transcripts short unset calls).included ≡ "c1" ∷ "c2" ∷ [])
    × ((merge_transcripts short unset calls).truncation_boundary ≡ some 3)
    × (map
          (λ e. e.call_id)
          (merge_transcripts (record short { truncation_mode = none }) unset calls).included
        ≡ "c2" ∷ "c3" ∷ [])
    × ((merge_transcripts (record short { max_words = some 5 }) unset calls).included_calls ≡ 1)
unfolding merge_transcripts apply_truncation drop_over
merged = (refl, refl, refl, refl, refl)

merge_transcripts-IsCut_example :
    IsCut 310
      (facing newest_first calls)
      (facing newest_first (merge_transcripts short unset calls).included)
    × ((merge_transcripts short unset calls).included_calls
        ≡ length (merge_transcripts short unset calls).included)
    × ((merge_transcripts short unset calls).truncated ≡ ltb 310 (total_words calls))
merge_transcripts-IsCut_example = merge_transcripts-IsCut short unset calls
