-- ===== src/Hls/Render.antt =====
-- The two `Render` of pkg/streaming/hls/playlist.go. A text is what is written to the buffer: lines,
-- each with its end. `decimal` is what the verb %d prints, `thousandths` what %.3f prints of a
-- number of thousandths, and `date_time` the layout of `Format`; a time of 0 is the zero time.
use Prim.Native.String.{String, ◌++◌ as ◌<>◌}
use zenlive.Common.{ℕ, List, [], ◌∷◌, ◌++◌, ltb, ◌==◌, if◌then◌else◌, ite, string_discrete}
use zenlive.Hls.Tables.{Segment}
use zenlive.Hls.Playlist.{MediaPlaylist}
use zenlive.Hls.Variants.{Variant, MasterPlaylist}

-- The content of the buffer after the lines were written to it.
unfoldable pub written : List String → String
written [] = ""
written (line ∷ lines) = line <> ("\n" <> written lines)

abbrev pub playlist_type_live : String
playlist_type_live = "LIVE"

-- `strings.Join`
unfoldable pub join : List String → String → String
join [] separator = ""
join (part ∷ []) separator = part
join (part ∷ next ∷ parts) separator = part <> (separator <> join (next ∷ parts) separator)

module _ (decimal : ℕ → String) (thousandths : ℕ → String) (date_time : ℕ → String) where
  unfoldable pub segment_lines : Segment → List String
  segment_lines s =
      (if s.discontinuity then "#EXT-X-DISCONTINUITY" ∷ [] else [])
      ++ (if s.program_date_time == 0
          then []
          else ("#EXT-X-PROGRAM-DATE-TIME:" <> date_time s.program_date_time) ∷ [])
      ++ ("#EXTINF:" <> (thousandths s.duration <> ",")) ∷ s.filename ∷ []

  unfoldable pub all_segment_lines : List Segment → List String
  all_segment_lines [] = []
  all_segment_lines (s ∷ segments) = segment_lines s ++ all_segment_lines segments

  unfoldable pub head_lines : MediaPlaylist → List String
  head_lines p =
      "#EXTM3U"
      ∷ ("#EXT-X-VERSION:" <> decimal p.version)
      ∷ ("#EXT-X-TARGETDURATION:" <> decimal p.target_duration)
      ∷ ("#EXT-X-MEDIA-SEQUENCE:" <> decimal p.media_sequence)
      ∷ ite (string_discrete p.playlist_type playlist_type_live) []
          (("#EXT-X-PLAYLIST-TYPE:" <> p.playlist_type) ∷ [])

  unfoldable pub render : MediaPlaylist → String
  render p = written (
      head_lines p
      ++ all_segment_lines p.segments
      ++ (if p.end_list then "#EXT-X-ENDLIST" ∷ [] else []))

  unfoldable pub attributes : Variant → List String
  attributes v =
      ("BANDWIDTH=" <> decimal v.bandwidth) ∷ []
      ++ (if ltb 0 v.average_bandwidth
          then ("AVERAGE-BANDWIDTH=" <> decimal v.average_bandwidth) ∷ []
          else [])
      ++ ite (string_discrete v.codecs "") [] (("CODECS=\"" <> (v.codecs <> "\"")) ∷ [])
      ++ ite (string_discrete v.resolution "") [] (("RESOLUTION=" <> v.resolution) ∷ [])
      ++ (if ltb 0 v.frame_rate then ("FRAME-RATE=" <> thousandths v.frame_rate) ∷ [] else [])

  unfoldable pub variant_lines : List Variant → List String
  variant_lines [] = []
  variant_lines (v ∷ variants) =
      ("#EXT-X-STREAM-INF:" <> join (attributes v) ",") ∷ v.uri ∷ variant_lines variants

  unfoldable pub render_master : MasterPlaylist → String
  render_master m =
      written ("#EXTM3U" ∷ ("#EXT-X-VERSION:" <> decimal m.version) ∷ variant_lines m.variants)
