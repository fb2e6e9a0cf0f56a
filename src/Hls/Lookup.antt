-- ===== src/Hls/Lookup.antt =====
-- What the DVR window of pkg/streaming/hls/dvr.go finds by an index, keeps of its segments, and makes
-- a playlist of.
use zenlive.Common.{
  ℕ, zero, suc, ◌+◌, ◌-◌, ◌%◌, ◌^◌, ◌≤◌, ◌<◌, ◌≡◌, refl, List, [], ◌∷◌, some, Bool, true, false,
  ◌==◌, length, inl, inr, Bool-cases, arith, dec_lt,
}
use zenlive.Hls.Tables.{Segment}
use zenlive.Hls.Dvr.{
  Total, plus, no_time, is_negative, wrong_index, DvrWindow, is_stale, trimmed, trim_window,
  add_segment, clear, nth, Found, found, outside, not_found, or_panic, get_segment_by_index,
  is_in_window, first_wrong, validate,
}
use zenlive.Hls.Window.{Consecutive, IsWindow}

-- The answer to a question for an index: the segment with this index if it is in the window, an
-- error if it is not.
abbrev pub Agrees : ℕ → Bool → Found → Type 0
Agrees index true (found s) = s.index ≡ index
Agrees index true r = ⊥
Agrees index false outside = Unit {0}
Agrees index false not_found = Unit {0}
Agrees index false r = ⊥

-- The segment at a position, which its index says.
nth-Consecutive :
    (start i : ℕ) (segments : List Segment)
    → Consecutive start segments
    → i < length segments
    → (s : Segment) × (nth segments i ≡ some s) × (s.index ≡ (start + i) % 2 ^ 64)
nth-Consecutive start i [] h small = absurd (omega arith)
nth-Consecutive start zero (s ∷ segments) h small = (s, refl, omega arith)
nth-Consecutive start (suc i) (s ∷ segments) h small =
    let (t, e, at) = nth-Consecutive (start + 1) i segments h.1 (omega arith) in (t, e, omega arith)

module _ (d : DvrWindow) (index : ℕ) where
  below :
      index < d.start_sequence
      → (is_in_window d index ≡ false) × (get_segment_by_index d index ≡ outside)
  unfolding is_in_window get_segment_by_index
  below lower = (ground arith, ground arith)

  module _ (small : d.start_sequence + length d.segments ≤ 2 ^ 63) (fits : index < 2 ^ 63) where
    above :
        d.start_sequence + length d.segments ≤ index
        → (is_in_window d index ≡ false) × (get_segment_by_index d index ≡ not_found)
    unfolding is_in_window get_segment_by_index
    above higher = (ground arith, ground arith)

    within :
        d.start_sequence ≤ index
        → index < d.start_sequence + length d.segments
        → (is_in_window d index ≡ true)
          × (get_segment_by_index d index ≡ or_panic (nth d.segments (index - d.start_sequence)))
    unfolding is_in_window get_segment_by_index
    within low high = (ground arith, ground arith)

-- `IsInWindow` and `GetSegmentByIndex` of a window in order agree on every index below 2 ^ 63, where
-- the window ends before it: an index is in the window exactly if the segment with it is found, and
-- any other is an error.
pub get_segment_by_index-Agrees :
    (d : DvrWindow) (index : ℕ)
    → IsWindow d
    → d.start_sequence + length d.segments ≤ 2 ^ 63
    → index < 2 ^ 63
    → Agrees index (is_in_window d index) (get_segment_by_index d index)
get_segment_by_index-Agrees d index v small fits = elim (dec_lt index d.start_sequence) [
  | yes lower ↦ let (a, b) = below d index lower in rw (a, b) tt
  | no low ↦ elim (dec_lt index (d.start_sequence + length d.segments)) [
    | yes high ↦
        let (a, b) = within d index small fits (omega arith) high in
        let (s, e, at) =
          nth-Consecutive d.start_sequence (index - d.start_sequence) d.segments v.indexed
            (omega arith) in
        rw (a, b, e) (omega arith)
    | no higher ↦ let (a, b) = above d index small fits (omega arith) in rw (a, b) tt
  ]
]

-- After `Clear` of a window with segments, fewer than 2 ^ 64, and a size that is not negative, the
-- segment that comes next has a wrong index where it is not too old and its duration, added to 0, is
-- not negative: the window forgets its segments and keeps its start.
pub validate-clear :
    (negative : Total → Bool) (now : ℕ) (s : Segment) (d : DvrWindow)
    → s.index ≡ (d.start_sequence + length d.segments) % 2 ^ 64
    → 0 < length d.segments
    → length d.segments < 2 ^ 64
    → is_stale now d.window_size s ≡ false
    → is_negative d.window_size ≡ false
    → negative (plus no_time s.duration) ≡ false
    → validate negative (add_segment now s (clear d)) ≡ some (wrong_index 0)
unfolding validate first_wrong add_segment clear trim_window trimmed
validate-clear negative now s d next some_segment few fresh size_fits total_fits =
    let wrong : (s.index == (d.start_sequence + 0) % 2 ^ 64) ≡ false = ground arith in
    elim (Bool-cases (d.window_size == 0)) [
      | inl unbounded ↦ rw (size_fits, unbounded, size_fits, total_fits, wrong) refl
      | inr bounded ↦ rw (size_fits, bounded, fresh, size_fits, total_fits, wrong) refl
    ]
