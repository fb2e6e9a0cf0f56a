-- ===== src/Hls/Uris.antt =====
-- What a reader finds in the playlists that `Render` of pkg/streaming/hls/playlist.go writes.
use Prim.Native.String.{String, ◌++◌ as ◌<>◌}
use mathlib.Core.List.{append-nil}
use zenlive.Common.{
  ℕ, ◌≡◌, refl, ◌∙◌, true, List, [], ◌∷◌, ◌++◌, map, ltb, ◌==◌, if_cases, All, All-append,
  string_discrete, ite,
}
use zenlive.Hls.Tables.{Segment}
use zenlive.Hls.Playlist.{MediaPlaylist}
use zenlive.Hls.Variants.{Variant, MasterPlaylist}
use zenlive.Hls.Render.{
  join, segment_lines, all_segment_lines, head_lines, playlist_type_live, render, attributes,
  variant_lines, render_master,
}
use zenlive.Hls.Reading.{
  no_break, is_uri, IsLine, append-IsLine, uris, Lists, Lists-nil, Lists-append, Lists-tag,
  Lists-uri, uris-written,
}

-- A text that a player reads as a URI if it stands on a line.
abbrev pub IsUri : String → Type 0
IsUri s = IsLine s × (is_uri s ≡ true)

-- Both branches of a test have a property.
ite-both : {A P : Type 0} (Q : A → Type 0) (d : Dec P) (x y : A) → Q x → Q y → Q (ite d x y)
ite-both Q (yes _) x y h k = h
ite-both Q (no _) x y h k = k

join-IsLine :
    (parts : List String) (separator : String)
    → All IsLine parts
    → IsLine separator
    → IsLine (join parts separator)
unfolding join no_break
join-IsLine [] separator h k = refl
join-IsLine (part ∷ []) separator h k = h.0
join-IsLine (part ∷ next ∷ parts) separator h k =
    append-IsLine part _ h.0
      (append-IsLine separator _ k (join-IsLine (next ∷ parts) separator h.1 k))

-- No variant has a line end in its codecs or its resolution, and each has a URI.
abbrev pub AreListed : List Variant → Type 0
AreListed variants = All (λ v. IsUri v.uri × IsLine v.codecs × IsLine v.resolution) variants

record AreLines (parts : List String) : Type 0 where
  all_lines : All IsLine parts

AreLines-none : AreLines []
AreLines-none = record { all_lines = tt }

AreLines-one : (s t : String) → IsLine s → IsLine t → AreLines ((s <> t) ∷ [])
AreLines-one s t h k = record { all_lines = (append-IsLine s t h k, tt) }

AreLines-append : (xs ys : List String) → AreLines xs → AreLines ys → AreLines (xs ++ ys)
AreLines-append xs ys h k = record { all_lines = All-append IsLine xs ys h.all_lines k.all_lines }

module _ (decimal : ℕ → String) (thousandths : ℕ → String) (date_time : ℕ → String)
    (decimal-IsLine : (n : ℕ) → IsLine (decimal n))
    (thousandths-IsLine : (n : ℕ) → IsLine (thousandths n))
    (date_time-IsLine : (n : ℕ) → IsLine (date_time n)) where
  segment_lines-Lists :
      (s : Segment)
      → IsUri s.filename
      → Lists (segment_lines decimal thousandths date_time s) (s.filename ∷ [])
  unfolding segment_lines no_break
  segment_lines-Lists s h =
      let name = Lists-uri s.filename h.0 h.1 in
      let info =
        Lists-append _ _ _ _
          (Lists-tag "#EXTINF:" (thousandths s.duration <> ",") refl refl
            (append-IsLine (thousandths s.duration) "," (thousandths-IsLine s.duration) refl))
          name in
      let time =
        if_cases (λ ls. Lists ls []) (s.program_date_time == 0) []
          (("#EXT-X-PROGRAM-DATE-TIME:" <> date_time s.program_date_time) ∷ []) (λ _. Lists-nil)
          (λ _. Lists-tag "#EXT-X-PROGRAM-DATE-TIME:" _ refl refl (date_time-IsLine _)) in
      let gap =
        if_cases (λ ls. Lists ls []) s.discontinuity ("#EXT-X-DISCONTINUITY" ∷ []) []
          (λ _. Lists-tag "#EXT-X-DISCONTINUITY" "" refl refl refl) (λ _. Lists-nil) in
      Lists-append _ _ _ _ (Lists-append _ _ _ _ gap time) info

  all_segment_lines-Lists :
      (segments : List Segment)
      → All (λ s. IsUri s.filename) segments
      → Lists
          (all_segment_lines decimal thousandths date_time segments)
          (map (λ s. s.filename) segments)
  unfolding all_segment_lines
  all_segment_lines-Lists [] h = Lists-nil
  all_segment_lines-Lists (s ∷ segments) h =
      Lists-append _ _ _ _ (segment_lines-Lists s h.0) (all_segment_lines-Lists segments h.1)

  head_lines-Lists :
      (p : MediaPlaylist)
      → IsLine p.playlist_type
      → Lists (head_lines decimal thousandths date_time p) []
  unfolding head_lines no_break
  head_lines-Lists p h = Lists-append _ _ _ _ (Lists-tag "#EXTM3U" "" refl refl refl) (
      Lists-append _ _ _ _ (Lists-tag "#EXT-X-VERSION:" _ refl refl (decimal-IsLine p.version)) (
        Lists-append _ _ _ _
          (Lists-tag "#EXT-X-TARGETDURATION:" _ refl refl (decimal-IsLine p.target_duration))
          (Lists-append _ _ _ _
            (Lists-tag "#EXT-X-MEDIA-SEQUENCE:" _ refl refl (decimal-IsLine p.media_sequence))
            (ite-both (λ ls. Lists ls []) (string_discrete p.playlist_type playlist_type_live) _ _
              Lists-nil (Lists-tag "#EXT-X-PLAYLIST-TYPE:" _ refl refl h)))))

  -- A player that reads what Render writes finds the files of the segments, in their order, where
  -- the file names are URIs on a line, and the type is part of a line, as formatted numbers and
  -- times are.
  pub uris-render :
      (p : MediaPlaylist)
      → All (λ s. IsUri s.filename) p.segments
      → IsLine p.playlist_type
      → uris (render decimal thousandths date_time p) ≡ map (λ s. s.filename) p.segments
  unfolding render no_break
  uris-render p h k =
      let tail =
        if_cases (λ ls. Lists ls []) p.end_list ("#EXT-X-ENDLIST" ∷ []) []
          (λ _. Lists-tag "#EXT-X-ENDLIST" "" refl refl refl) (λ _. Lists-nil) in
      uris-written _ _ (
        Lists-append _ _ _ _
          (Lists-append _ _ _ _ (head_lines-Lists p k) (all_segment_lines-Lists p.segments h)) tail)
      ∙ append-nil _

  attributes-AreLines :
      (v : Variant)
      → IsLine v.codecs
      → IsLine v.resolution
      → AreLines (attributes decimal thousandths date_time v)
  unfolding attributes no_break
  attributes-AreLines v c r =
      let bits =
        AreLines-one "BANDWIDTH=" (decimal v.bandwidth) refl (decimal-IsLine v.bandwidth) in
      let average =
        if_cases AreLines (ltb 0 v.average_bandwidth) _ []
          (λ _.
            AreLines-one "AVERAGE-BANDWIDTH=" (decimal v.average_bandwidth) refl
              (decimal-IsLine v.average_bandwidth))
          (λ _. AreLines-none) in
      let codecs =
        ite-both AreLines (string_discrete v.codecs "") [] _ AreLines-none
          (AreLines-one "CODECS=\"" (v.codecs <> "\"") refl (append-IsLine v.codecs "\"" c refl)) in
      let resolution =
        ite-both AreLines (string_discrete v.resolution "") [] _ AreLines-none
          (AreLines-one "RESOLUTION=" v.resolution refl r) in
      let rate =
        if_cases AreLines (ltb 0 v.frame_rate) _ []
          (λ _.
            AreLines-one "FRAME-RATE=" (thousandths v.frame_rate) refl
              (thousandths-IsLine v.frame_rate))
          (λ _. AreLines-none) in
      AreLines-append _ _
        (AreLines-append _ _ (AreLines-append _ _ (AreLines-append _ _ bits average) codecs)
          resolution)
        rate

  variant_lines-Lists :
      (variants : List Variant)
      → AreListed variants
      → Lists (variant_lines decimal thousandths date_time variants) (map (λ v. v.uri) variants)
  unfolding variant_lines no_break
  variant_lines-Lists [] h = Lists-nil
  variant_lines-Lists (v ∷ variants) ((u, c, r), h) =
      let of_attributes =
        join-IsLine (attributes decimal thousandths date_time v) ","
          (attributes-AreLines v c r).all_lines refl in
      Lists-append _ _ _ _ (Lists-tag "#EXT-X-STREAM-INF:" _ refl refl of_attributes)
        (Lists-append _ _ _ _ (Lists-uri v.uri u.0 u.1) (variant_lines-Lists variants h))

  -- A player that reads the master playlist finds the URIs of the variants, in their order, where
  -- each is a URI on a line, and codecs and resolution are parts of lines, as formatted numbers and
  -- times are.
  pub uris-render_master :
      (m : MasterPlaylist)
      → AreListed m.variants
      → uris (render_master decimal thousandths date_time m) ≡ map (λ v. v.uri) m.variants
  unfolding render_master no_break
  uris-render_master m h = uris-written _ _ (
      Lists-append _ _ _ _ (Lists-tag "#EXTM3U" "" refl refl refl) (
        Lists-append _ _ _ _ (Lists-tag "#EXT-X-VERSION:" _ refl refl (decimal-IsLine m.version))
          (variant_lines-Lists m.variants h)))
