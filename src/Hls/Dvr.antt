-- ===== src/Hls/Dvr.antt =====
-- `DVRWindow` of pkg/streaming/hls/dvr.go. Durations and offsets are in milliseconds, times in
-- nanoseconds; the time that a call reads is an argument. The window size is a word of 64 bits in
-- two's complement. The total, a float64, is the computation that gives it, and its sign is a
-- parameter of `Validate`.
use zenlive.Common.{
  ℕ, zero, suc, ◌+◌, ◌-◌, ◌*◌, ◌%◌, ◌^◌, List, [], ◌∷◌, ◌++◌, Option, none, some, Bool, true, false,
  ltb, leb, ◌==◌, ◌&&◌, ◌||◌, if◌then◌else◌, length, drop,
}
use zenlive.Hls.Tables.{Segment}
use zenlive.Hls.Playlist.{MediaPlaylist, new_media_playlist, or_else}
use zenlive.Hls.Playlist

-- What `TotalDuration` was assigned: 0, a sum or a difference, each with a rounding.
pub data Total : Type 0 where
  no_time : Total
  plus minus : Total → ℕ → Total

pub record DvrWindow : Type 0 where
  pub window_size : ℕ
  pub segments : List Segment
  pub start_sequence : ℕ
  pub total_duration : Total

unfoldable pub new_dvr_window : ℕ → DvrWindow
new_dvr_window window_size = record {
  window_size = window_size;
  segments = [];
  start_sequence = 0;
  total_duration = no_time;
}

-- `d.WindowSize < 0`
abbrev pub is_negative : ℕ → Bool
is_negative size = leb (2 ^ 63) size

-- `seg.CreatedAt.Before(cutoffTime)`, where the product with `time.Second` wraps at 2 ^ 64: one from
-- 2 ^ 63 + 1 on is negative, and the cutoff is after the time `now`.
unfoldable pub is_stale : ℕ → ℕ → Segment → Bool
is_stale now window_size s =
    let window = window_size * 1_000_000_000 % 2 ^ 64 in
    if leb window (2 ^ 63)
    then ltb (s.created_at + window) now
    else ltb s.created_at (now + (2 ^ 64 - window))

-- The loop: the number of segments to remove and the total that is left.
unfoldable pub trimmed : ℕ → ℕ → List Segment → Total → ℕ × Total
trimmed now window_size [] total = (0, total)
trimmed now window_size (s ∷ segments) total =
    let rest = trimmed now window_size segments (minus total s.duration) in
    if is_stale now window_size s then (suc rest.0, rest.1) else (0, total)

unfoldable pub trim_window : ℕ → DvrWindow → DvrWindow
trim_window now d =
    if (d.window_size == 0) || is_negative d.window_size
    then d
    else (let t = trimmed now d.window_size d.segments d.total_duration in
        if ltb 0 t.0
        then record d {
          segments = drop t.0 d.segments;
          start_sequence = (d.start_sequence + t.0) % 2 ^ 64;
          total_duration = t.1;
        }
        else record d { total_duration = t.1 })

unfoldable pub add_segment : ℕ → Segment → DvrWindow → DvrWindow
add_segment now s d = trim_window now (record d {
  segments = d.segments ++ s ∷ [];
  total_duration = plus d.total_duration s.duration;
})

unfoldable pub clear : DvrWindow → DvrWindow
clear d = record d { segments = []; total_duration = no_time }

unfoldable pub set_window_size : ℕ → ℕ → DvrWindow → DvrWindow
set_window_size now size d = trim_window now (record d { window_size = size })

abbrev pub nth : List Segment → ℕ → Option Segment
nth [] i = none
nth (s ∷ segments) zero = some s
nth (s ∷ segments) (suc i) = nth segments i

-- `panics` is an index that is out of range.
pub data Found : Type 0 where
  found : Segment → Found
  outside not_found panics : Found

abbrev pub or_panic : Option Segment → Found
or_panic none = panics
or_panic (some s) = found s

-- `int(index - d.StartSequence)` is negative from 2 ^ 63 on.
unfoldable pub get_segment_by_index : DvrWindow → ℕ → Found
get_segment_by_index d index =
    if ltb index d.start_sequence
    then outside
    else (if leb (2 ^ 63) (index - d.start_sequence)
        then panics
        else (if leb (length d.segments) (index - d.start_sequence)
            then not_found
            else or_panic (nth d.segments (index - d.start_sequence))))

-- The loop over the segments, with the time that was reached; the last segment if none is later.
unfoldable pub at_time : ℕ → ℕ → Segment → List Segment → Segment
at_time offset current s [] = s
at_time offset current s (t ∷ segments) =
    let rest = at_time offset (current + s.duration) t segments in
    if ltb offset (current + s.duration) then s else rest

-- `none` is the error that the window is empty; the offset is in milliseconds.
unfoldable pub get_segment_by_time : DvrWindow → ℕ → Option Segment
get_segment_by_time d offset = elim d.segments [
  | [] ↦ none
  | s ∷ segments ↦ some (at_time offset 0 s segments)
]

-- The segments from `current` on that overlap with the range.
unfoldable pub overlapping : ℕ → ℕ → ℕ → List Segment → List Segment
overlapping start end current [] = []
overlapping start end current (s ∷ segments) =
    let rest = overlapping start end (current + s.duration) segments in
    let later = if ltb end (current + s.duration) then [] else rest in
    if ltb start (current + s.duration) && ltb current end then s ∷ later else later

unfoldable pub get_segment_range : DvrWindow → ℕ → ℕ → Option (List Segment)
get_segment_range d start end = elim d.segments [
  | [] ↦ none
  | s ∷ segments ↦ some (overlapping start end 0 (s ∷ segments))
]

unfoldable pub get_end_sequence : DvrWindow → ℕ
get_end_sequence d =
    if length d.segments == 0
    then d.start_sequence
    else (d.start_sequence + length d.segments + (2 ^ 64 - 1)) % 2 ^ 64

unfoldable pub is_in_window : DvrWindow → ℕ → Bool
is_in_window d index =
    if length d.segments == 0
    then false
    else leb d.start_sequence index
      && leb index ((d.start_sequence + length d.segments + (2 ^ 64 - 1)) % 2 ^ 64)

-- The times of the oldest and of the newest segment, 0 for `time.Time{}`.
unfoldable pub get_oldest_segment_time : DvrWindow → ℕ
get_oldest_segment_time d = elim d.segments [ [] ↦ 0 | s ∷ segments ↦ s.created_at ]

unfoldable pub last_time : List Segment → ℕ
last_time [] = 0
last_time (s ∷ []) = s.created_at
last_time (s ∷ t ∷ segments) = last_time (t ∷ segments)

unfoldable pub get_newest_segment_time : DvrWindow → ℕ
get_newest_segment_time d = last_time d.segments

unfoldable pub add_all : List Segment → MediaPlaylist → MediaPlaylist
add_all [] p = p
add_all (s ∷ segments) p = add_all segments (Playlist.add_segment s p)

unfoldable pub create_playlist_from_window : ℕ → DvrWindow → MediaPlaylist
create_playlist_from_window target_duration d =
    add_all d.segments (record (new_media_playlist target_duration "EVENT") {
      media_sequence = d.start_sequence;
      dvr_enabled = true;
      dvr_window_size = d.window_size;
    })

-- The position of the first segment that does not have the index that its place says.
unfoldable pub first_wrong : ℕ → ℕ → List Segment → Option ℕ
first_wrong start i [] = none
first_wrong start i (s ∷ segments) =
    or_else (if s.index == (start + i) % 2 ^ 64 then none else some i)
      (first_wrong start (i + 1) segments)

pub data DvrError : Type 0 where
  invalid_window_size invalid_total_duration : DvrError
  wrong_index : ℕ → DvrError

abbrev pub index_error : Option ℕ → Option DvrError
index_error none = none
index_error (some i) = some (wrong_index i)

-- `negative` says whether the float64 that a computation gives is below 0.
unfoldable pub validate : (negative : Total → Bool) → DvrWindow → Option DvrError
validate negative d =
    if is_negative d.window_size
    then some invalid_window_size
    else (if negative d.total_duration
        then some invalid_total_duration
        else index_error (first_wrong d.start_sequence 0 d.segments))
