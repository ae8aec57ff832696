-- ===== src/Transcripts/Cuts.antt =====
-- `applyTruncation` of src/services/transcript-merger.ts: what is kept.
use webappv.Common.{
  ℕ, ◌+◌, ◌≤◌, ◌<◌, ◌≡◌, refl, ◌∙◌, ap, sym, subst, ◌⊎◌, inl, inr, Option, none, some, List, [],
  ◌∷◌, ◌++◌, arith, ltb, leb, length, Bool-cases, length-append,
}
use mathlib.Core.List.{reverse, reverse-reverse, reverse-cons}
use webappv.Transcripts.{
  TruncationMode, oldest_first, newest_first, Entry, total_words, drop_over, facing,
  apply_truncation, MergeOptions, max_words_of, mode_of, merge_transcripts,
}

tail_eq : {x y : Entry} {xs ys : List Entry} → x ∷ xs ≡ y ∷ ys → xs ≡ ys
tail_eq h = cc

-- `kept` is what is left of `entries` when whole entries are dropped at the head: it fits or is a
-- single entry, and no longer rest fits.
pub record IsCut (max_words : ℕ) (entries kept : List Entry) : Type 0 where
  pub dropped : List Entry
  pub splits : entries ≡ dropped ++ kept
  pub fits : (total_words kept ≤ max_words) ⊎ (length kept ≤ 1)
  pub longest :
      (xs ys : List Entry)
      → entries ≡ xs ++ ys
      → length kept < length ys
      → max_words < total_words ys

whole :
    (max_words : ℕ) (entries : List Entry)
    → (total_words entries ≤ max_words) ⊎ (length entries ≤ 1)
    → IsCut max_words entries entries
whole max_words entries h = record {
  dropped = [];
  splits = refl;
  fits = h;
  longest = λ xs ys e l. absurd (omega (arith, ap length e, length-append xs ys, l));
}

longer :
    (max_words : ℕ) (e : Entry) (entries kept xs ys : List Entry)
    → IsCut max_words entries kept
    → max_words < total_words (e ∷ entries)
    → e ∷ entries ≡ xs ++ ys
    → length kept < length ys
    → max_words < total_words ys
longer max_words e entries kept [] ys cut over split l =
    subst (λ zs. max_words < total_words zs) split over
longer max_words e entries kept (x ∷ xs) ys cut over split l = cut.longest xs ys (tail_eq split) l

extend :
    (max_words : ℕ) (e : Entry) (entries kept : List Entry)
    → IsCut max_words entries kept
    → max_words < total_words (e ∷ entries)
    → IsCut max_words (e ∷ entries) kept
extend max_words e entries kept cut over = record {
  dropped = e ∷ cut.dropped;
  splits = ap (λ zs. e ∷ zs) cut.splits;
  fits = cut.fits;
  longest = λ xs ys split l. longer max_words e entries kept xs ys cut over split l;
}

-- The loop keeps the longest rest that fits.
drop_over-IsCut :
    (max_words : ℕ) (boundary : Option ℕ) (entries : List Entry)
    → IsCut max_words entries (drop_over max_words (total_words entries) boundary entries).0
unfolding drop_over
drop_over-IsCut max_words boundary [] = whole max_words [] (inr (omega arith))
drop_over-IsCut max_words boundary (e ∷ []) = whole max_words (e ∷ []) (inr (omega arith))
drop_over-IsCut max_words boundary (e ∷ f ∷ entries) =
    elim (Bool-cases (ltb max_words (total_words (e ∷ f ∷ entries)))) [
      | inr n ↦ rw n (whole max_words (e ∷ f ∷ entries) (inl (ground (arith, n))))
      | inl t ↦ rw t (
          subst
            (λ n.
              IsCut max_words (e ∷ f ∷ entries)
                (drop_over max_words n (some e.occurred_at) (f ∷ entries)).0)
            {x = total_words (f ∷ entries)} (omega arith)
            (extend max_words e (f ∷ entries) _
              (drop_over-IsCut max_words (some e.occurred_at) (f ∷ entries)) (ground (arith, t))))
    ]

total_words-append : (xs ys : List Entry) → total_words (xs ++ ys) ≡ total_words xs + total_words ys
total_words-append [] ys = omega arith
total_words-append (x ∷ xs) ys = omega (arith, total_words-append xs ys)

total_words-reverse : (xs : List Entry) → total_words (reverse xs) ≡ total_words xs
total_words-reverse [] = refl
total_words-reverse (x ∷ xs) =
    ap total_words (reverse-cons x xs)
    ∙ omega (arith, total_words-append (reverse xs) (x ∷ []), total_words-reverse xs)

module _ (entries : List Entry) (max_words : ℕ) (mode : TruncationMode) where
  facing_twice : (m : TruncationMode) (xs : List Entry) → facing m (facing m xs) ≡ xs
  facing_twice oldest_first xs = refl
  facing_twice newest_first xs = reverse-reverse xs

  total_words-facing :
      (m : TruncationMode) (xs : List Entry) → total_words (facing m xs) ≡ total_words xs
  total_words-facing oldest_first xs = refl
  total_words-facing newest_first xs = total_words-reverse xs

  apply_truncation-IsCut :
      IsCut max_words
        (facing mode entries)
        (facing mode (apply_truncation entries max_words mode).included)
      × ((apply_truncation entries max_words mode).truncated ≡ ltb max_words (total_words entries))
  unfolding apply_truncation
  apply_truncation-IsCut = elim (Bool-cases (leb (total_words entries) max_words)) [
    | inl e ↦ rw e (
      whole max_words (facing mode entries) (
          inl (
            subst (λ n. n ≤ max_words) (sym (total_words-facing mode entries))
              (ground (arith, e)))),
      ground (arith, e),
    )
    | inr n ↦ rw n (
      subst (IsCut max_words (facing mode entries)) (sym (facing_twice mode _)) (
          subst
            (λ n.
              IsCut max_words (facing mode entries)
                (drop_over max_words n none (facing mode entries)).0)
            (total_words-facing mode entries)
            (drop_over-IsCut max_words none (facing mode entries))),
      ground (arith, n),
    )
  ]

-- Seen from the end that calls are dropped from, the oldest or the newest by the mode, the calls that
-- go into the merged transcript are the longest rest that fits into the words allowed, or a single
-- call, which need not fit; their number is reported, and the transcript counts as truncated exactly
-- if the calls together do not fit.
pub merge_transcripts-IsCut :
    (options settings : MergeOptions) (entries : List Entry)
    → IsCut
        (max_words_of options settings)
        (facing (mode_of options settings) entries)
        (facing (mode_of options settings) (merge_transcripts options settings entries).included)
      × ((merge_transcripts options settings entries).included_calls
          ≡ length (merge_transcripts options settings entries).included)
      × ((merge_transcripts options settings entries).truncated
          ≡ ltb (max_words_of options settings) (total_words entries))
unfolding merge_transcripts
merge_transcripts-IsCut options settings [] = (empty (mode_of options settings), refl, ground arith)
  where
    empty : (m : TruncationMode) → IsCut (max_words_of options settings) (facing m []) (facing m [])
    empty m = whole (max_words_of options settings) (facing m []) (inl (none_left m))
      where
        none_left : (k : TruncationMode) → total_words (facing k []) ≤ max_words_of options settings
        none_left oldest_first = omega arith
        none_left newest_first = omega arith
merge_transcripts-IsCut options settings (e ∷ entries) =
    let (cut, truncated) =
      apply_truncation-IsCut (e ∷ entries) (max_words_of options settings)
        (mode_of options settings) in
    (cut, refl, truncated)
