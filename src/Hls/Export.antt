-- ===== src/Hls/Export.antt =====
-- The playlist that `CreatePlaylistFromWindow` of pkg/streaming/hls/dvr.go makes, and the windows of
-- the media playlist of playlist.go.
use mathlib.Core.List.{append-nil, append_assoc}
use mathlib.Core.Path.{subst}
use zenlive.Common.{
  ℕ, ◌+◌, ◌≤◌, ◌<◌, ◌≡◌, ◌≢◌, refl, sym, ap, ◌∙◌, List, [], ◌∷◌, ◌++◌, none, true, ltb,
  if◌then◌else◌, All, All-append, arith,
}
use zenlive.Hls.Tables.{Segment}
use zenlive.Hls.Playlist.{
  MediaPlaylist, rounded, new_media_playlist, validate_playlist, segment_error, first_error,
  add_segment,
}
use zenlive.Hls.Dvr.{DvrWindow, add_all, create_playlist_from_window}

-- A segment that a playlist can have: it lasts, and has a file.
abbrev pub IsPlayable : Segment → Type 0
IsPlayable s = (0 < s.duration) × (s.filename ≢ "")

-- No segment is longer than the target.
abbrev pub Within : ℕ → List Segment → Type 0
Within target segments = All (λ (s : Segment). rounded s ≤ target) segments

Within-mono : (a b : ℕ) (segments : List Segment) → a ≤ b → Within a segments → Within b segments
Within-mono a b [] le h = tt
Within-mono a b (s ∷ segments) le h = (omega arith, Within-mono a b segments le h.1)

-- What a series of `AddSegment` leaves.
pub record Added (segments : List Segment) (p q : MediaPlaylist) : Type 0 where
  pub all_there : q.segments ≡ p.segments ++ segments
  pub within : Within q.target_duration q.segments
  pub grows : p.target_duration ≤ q.target_duration
  pub same_version : q.version ≡ p.version
  pub same_sequence : q.media_sequence ≡ p.media_sequence
  pub same_end : q.end_list ≡ p.end_list

add_segment-Added :
    (s : Segment) (p : MediaPlaylist)
    → Within p.target_duration p.segments
    → Added (s ∷ []) p (add_segment s p)
unfolding add_segment
add_segment-Added s p h =
    let raised : ℕ = if ltb p.target_duration (rounded s) then rounded s else p.target_duration in
    let up : p.target_duration ≤ raised = ground arith in
    let here : rounded s ≤ raised = ground arith in
    record {
      all_there = refl;
      within =
          All-append (λ (t : Segment). rounded t ≤ raised) p.segments (s ∷ [])
            (Within-mono p.target_duration raised p.segments up h) (here, tt);
      grows = up;
      same_version = refl;
      same_sequence = refl;
      same_end = refl;
    }

pub add_all-Added :
    (segments : List Segment) (p : MediaPlaylist)
    → Within p.target_duration p.segments
    → Added segments p (add_all segments p)
unfolding add_all
add_all-Added [] p h = record {
  all_there = sym (append-nil p.segments);
  within = h;
  grows = omega arith;
  same_version = refl;
  same_sequence = refl;
  same_end = refl;
}
add_all-Added (s ∷ segments) p h =
    let one = add_segment-Added s p h in
    let rest = add_all-Added segments (add_segment s p) one.within in
    record {
      all_there =
          rest.all_there
          ∙ ap (λ l. l ++ segments) one.all_there
          ∙ append_assoc p.segments (s ∷ []) segments;
      within = rest.within;
      grows = omega (arith, one.grows, rest.grows);
      same_version = rest.same_version ∙ one.same_version;
      same_sequence = rest.same_sequence ∙ one.same_sequence;
      same_end = rest.same_end ∙ one.same_end;
    }

first_error-none :
    (target i : ℕ) (segments : List Segment)
    → Within target segments
    → All IsPlayable segments
    → first_error target i segments ≡ none
unfolding first_error segment_error
first_error-none target i [] h k = refl
first_error-none target i (s ∷ segments) h k =
    ground (arith, h.0, k.0, first_error-none target (i + 1) segments h.1 k.1)

accepted :
    (p : MediaPlaylist)
    → p.version ≡ 3
    → 0 < p.target_duration
    → Within p.target_duration p.segments
    → All IsPlayable p.segments
    → validate_playlist p ≡ none
unfolding validate_playlist
accepted p three positive h k = ground (arith, first_error-none p.target_duration 0 p.segments h k)

-- The playlist of a window has its segments and its start, and `ValidatePlaylist` accepts it, where
-- the target is positive and each segment lasts and has a file name.
pub create_playlist_from_window-accepted :
    (target : ℕ) (d : DvrWindow)
    → 0 < target
    → All IsPlayable d.segments
    → ((create_playlist_from_window target d).segments ≡ d.segments)
      × ((create_playlist_from_window target d).media_sequence ≡ d.start_sequence)
      × (validate_playlist (create_playlist_from_window target d) ≡ none)
unfolding create_playlist_from_window new_media_playlist
create_playlist_from_window-accepted target d positive h =
    let start : MediaPlaylist = record (new_media_playlist target "EVENT") {
      media_sequence = d.start_sequence;
      dvr_enabled = true;
      dvr_window_size = d.window_size;
    } in
    let added = add_all-Added d.segments start tt in
    let p = add_all d.segments start in
    (
      added.all_there,
      added.same_sequence,
      accepted p added.same_version (omega (arith, added.grows)) added.within
          (subst (All IsPlayable) (sym added.all_there) h),
    )
