-- ===== src/Transcripts.antt =====
-- src/services/transcript-merger.ts: which calls of an account go into the merged transcript. The
-- rendering of the document and the count of its words are left out.
use webappv.Common.{
  ℕ, String, ◌+◌, ◌-◌, Bool, true, false, Option, none, some, List, [], ◌∷◌, if◌then◌else◌, ltb,
  leb, length,
}
use mathlib.Core.List.{reverse}
pub mod Cuts
pub mod Tests

pub data TruncationMode : Type 0 where
  oldest_first newest_first : TruncationMode

-- the fields that decide; the others are only rendered
pub record Entry : Type 0 where
  pub call_id : String
  pub occurred_at : ℕ
  pub word_count : ℕ

abbrev pub header_overhead : ℕ
header_overhead = 30

abbrev pub cost : Entry → ℕ
cost e = e.word_count + header_overhead

abbrev pub total_words : List Entry → ℕ
total_words [] = 0
total_words (e ∷ entries) = cost e + total_words entries

-- The `while` loop on the end that entries are dropped from, which is the list's head here. It stops
-- at one entry.
unfoldable pub drop_over :
    (max_words total : ℕ) → (boundary : Option ℕ) → List Entry → List Entry × Option ℕ
drop_over max_words total boundary [] = ([], boundary)
drop_over max_words total boundary (e ∷ []) = (e ∷ [], boundary)
drop_over max_words total boundary (e ∷ f ∷ entries) =
    let dropped = drop_over max_words (total - cost e) (some e.occurred_at) (f ∷ entries) in
    if ltb max_words total then dropped else (e ∷ f ∷ entries, boundary)

-- The entries from the end where they are dropped: `shift` takes the first, `pop` the last.
abbrev pub facing : TruncationMode → List Entry → List Entry
facing oldest_first entries = entries
facing newest_first entries = reverse entries

pub record Truncation : Type 0 where
  pub included : List Entry
  pub truncated : Bool
  pub truncation_boundary : Option ℕ

unfoldable pub apply_truncation : List Entry → (max_words : ℕ) → TruncationMode → Truncation
apply_truncation entries max_words mode =
    if leb (total_words entries) max_words
    then record { included = entries; truncated = false; truncation_boundary = none }
    else let (kept, boundary) =
        drop_over max_words (total_words entries) none (facing mode entries) in
      record { included = facing mode kept; truncated = true; truncation_boundary = boundary }

pub record MergeOptions : Type 0 where
  pub max_words : Option ℕ
  pub truncation_mode : Option TruncationMode

pub record MergedTranscript : Type 0 where
  pub total_calls : ℕ
  pub included_calls : ℕ
  pub included : List Entry
  pub truncated : Bool
  pub truncation_boundary : Option ℕ
  pub truncation_mode : TruncationMode

abbrev pub default_max_words : ℕ
default_max_words = 600_000

-- `a ?? b ?? c`
abbrev pub first_given : {A : Type 0} → Option A → Option A → A → A
first_given (some a) o d = a
first_given none (some a) d = a
first_given none none d = d

abbrev pub max_words_of : (options settings : MergeOptions) → ℕ
max_words_of options settings = first_given options.max_words settings.max_words default_max_words

abbrev pub mode_of : (options settings : MergeOptions) → TruncationMode
mode_of options settings = first_given options.truncation_mode settings.truncation_mode oldest_first

-- `mergeTranscripts`, on the entries that the query of the calls gives; `settings` are the
-- organization's
unfoldable pub merge_transcripts : (options settings : MergeOptions) → List Entry → MergedTranscript
merge_transcripts options settings [] = record {
  total_calls = 0;
  included_calls = 0;
  included = [];
  truncated = false;
  truncation_boundary = none;
  truncation_mode = mode_of options settings;
}
merge_transcripts options settings (e ∷ entries) =
    let t =
      apply_truncation (e ∷ entries) (max_words_of options settings) (mode_of options settings) in
    record {
      total_calls = length (e ∷ entries);
      included_calls = length t.included;
      included = t.included;
      truncated = t.truncated;
      truncation_boundary = t.truncation_boundary;
      truncation_mode = mode_of options settings;
    }
