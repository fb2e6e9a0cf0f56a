-- ===== src/Hls/Playlist.antt =====
-- `MediaPlaylist` and `ValidatePlaylist` of pkg/streaming/hls/playlist.go and types.go. Durations are
-- in milliseconds and times in nanoseconds; a number that is not positive is 0.
use zenlive.Common.{
  ℕ, suc, String, ◌+◌, ◌-◌, ◌*◌, ◌/◌, ◌%◌, ◌^◌, List, [], ◌∷◌, ◌++◌, Option, none, some, Bool, true,
  false, ltb, ◌==◌, ◌||◌, if◌then◌else◌, length, drop, ite, string_discrete,
}
use zenlive.Hls.Tables.{Segment}

pub record MediaPlaylist : Type 0 where
  pub version : ℕ
  pub target_duration : ℕ
  pub media_sequence : ℕ
  pub segments : List Segment
  pub playlist_type : String
  pub end_list : Bool
  pub dvr_enabled : Bool
  pub dvr_window_size : ℕ

unfoldable pub new_media_playlist : ℕ → String → MediaPlaylist
new_media_playlist target_duration playlist_type = record {
  version = 3;
  target_duration = target_duration;
  media_sequence = 0;
  segments = [];
  playlist_type = playlist_type;
  end_list = false;
  dvr_enabled = false;
  dvr_window_size = 60;
}

-- `int(segment.Duration+0.5)`
abbrev pub rounded : Segment → ℕ
rounded s = (s.duration + 500) / 1000

unfoldable pub add_segment : Segment → MediaPlaylist → MediaPlaylist
add_segment segment p = record p {
  segments = p.segments ++ segment ∷ [];
  target_duration =
      if ltb p.target_duration (rounded segment) then rounded segment else p.target_duration;
}

unfoldable pub remove_old_segments : ℕ → MediaPlaylist → MediaPlaylist
remove_old_segments max_segments p =
    if ltb max_segments (length p.segments)
    then record p {
      segments = drop (length p.segments - max_segments) p.segments;
      media_sequence = (p.media_sequence + (length p.segments - max_segments)) % 2 ^ 64;
    }
    else p

-- The segments at the front that were created before the time, up to the first that was not.
unfoldable pub stale_count : ℕ → List Segment → ℕ
stale_count before [] = 0
stale_count before (s ∷ segments) =
    let rest = stale_count before segments in if ltb s.created_at before then suc rest else 0

-- The new playlist, and the number of segments that were removed.
unfoldable pub remove_segments_before : ℕ → MediaPlaylist → MediaPlaylist × ℕ
remove_segments_before before p =
    let count = stale_count before p.segments in
    if ltb 0 count
    then (
      record p {
        segments = drop count p.segments;
        media_sequence = (p.media_sequence + count) % 2 ^ 64;
      },
      count,
    )
    else (p, count)

unfoldable pub get_segment_count : MediaPlaylist → ℕ
get_segment_count p = length p.segments

unfoldable pub durations : List Segment → ℕ
durations [] = 0
durations (s ∷ segments) = s.duration + durations segments

unfoldable pub get_total_duration : MediaPlaylist → ℕ
get_total_duration p = durations p.segments

unfoldable pub set_end_list : MediaPlaylist → MediaPlaylist
set_end_list p = record p { end_list = true }

-- The errors of `ValidatePlaylist`, with the position of the segment.
pub data PlaylistError : Type 0 where
  invalid_target_duration invalid_version : PlaylistError
  invalid_duration : ℕ → PlaylistError
  exceeds_target : ℕ → PlaylistError
  empty_filename : ℕ → PlaylistError

unfoldable pub segment_error : ℕ → ℕ → Segment → Option PlaylistError
segment_error target i s =
    if s.duration == 0
    then some (invalid_duration i)
    else (if ltb (target * 1000 + 1000) s.duration
        then some (exceeds_target i)
        else ite (string_discrete s.filename "") (some (empty_filename i)) none)

-- `first, or else later`: an early return.
abbrev pub or_else {ℓ} : {A : Type ℓ} → Option A → Option A → Option A
or_else none later = later
or_else (some e) later = some e

-- The loop over the segments, from position `i`.
unfoldable pub first_error : ℕ → ℕ → List Segment → Option PlaylistError
first_error target i [] = none
first_error target i (s ∷ segments) =
    or_else (segment_error target i s) (first_error target (i + 1) segments)

-- `none` is a nil error.
unfoldable pub validate_playlist : MediaPlaylist → Option PlaylistError
validate_playlist p =
    if p.target_duration == 0
    then some invalid_target_duration
    else (if ltb p.version 1 || ltb 7 p.version
        then some invalid_version
        else first_error p.target_duration 0 p.segments)
