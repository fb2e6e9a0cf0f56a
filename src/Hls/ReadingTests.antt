-- ===== src/Hls/ReadingTests.antt =====
-- Two playlists as text, with numbers in decimal digits.
use Prim.Native.String.{String, ◌++◌ as ◌<>◌}
use zenlive.Common.{
  ℕ, zero, suc, ◌/◌, ◌%◌, ◌==◌, ◌≡◌, refl, true, false, List, [], ◌∷◌, if◌then◌else◌, if_cases,
  string_discrete, All, map,
}
use zenlive.Hls.Tables.{Segment, video}
use zenlive.Hls.Playlist.{MediaPlaylist, new_media_playlist, add_segment, set_end_list}
use zenlive.Hls.Variants.{Variant, MasterPlaylist, new_master_playlist, add_variant}
use zenlive.Hls.Render.{
  written, join, segment_lines, all_segment_lines, head_lines, render, attributes, variant_lines,
  render_master,
}
use zenlive.Hls.Reading.{no_break, push, split_lines, is_uri, uris_of, uris, IsLine, append-IsLine}
use zenlive.Hls.Uris.{IsUri, uris-render}

unfoldable nth_of : ℕ → List String → String
nth_of n [] = ""
nth_of zero (s ∷ texts) = s
nth_of (suc n) (s ∷ texts) = nth_of n texts

abbrev digit : ℕ → String
digit d = nth_of d ("0" ∷ "1" ∷ "2" ∷ "3" ∷ "4" ∷ "5" ∷ "6" ∷ "7" ∷ "8" ∷ "9" ∷ [])

unfoldable digits : ℕ → ℕ → String
digits zero n = ""
digits (suc count) n =
    let rest = digits count (n / 10) in
    if n / 10 == 0 then digit (n % 10) else rest <> digit (n % 10)

abbrev decimal : ℕ → String
decimal n = digits 20 n

abbrev thousandths : ℕ → String
thousandths n = decimal (n / 1000) <> ("." <> digits 3 (n % 1000))

program : Unit {0}
unfolding nth_of digits no_break push split_lines is_uri uris_of written join segment_lines
    all_segment_lines head_lines render attributes variant_lines render_master new_media_playlist
    add_segment set_end_list new_master_playlist add_variant string_discrete
program = tt

nth_of-IsLine : (n : ℕ) (texts : List String) → All IsLine texts → IsLine (nth_of n texts)
unfolding nth_of no_break
nth_of-IsLine n [] h = refl
nth_of-IsLine zero (s ∷ texts) h = h.0
nth_of-IsLine (suc n) (s ∷ texts) h = nth_of-IsLine n texts h.1

digit-IsLine : (d : ℕ) → IsLine (digit d)
unfolding no_break
digit-IsLine d =
    nth_of-IsLine d _
      (refl, (refl, (refl, (refl, (refl, (refl, (refl, (refl, (refl, (refl, tt))))))))))

digits-IsLine : (count n : ℕ) → IsLine (digits count n)
unfolding digits no_break
digits-IsLine zero n = refl
digits-IsLine (suc count) n =
    if_cases IsLine (n / 10 == 0) (digit (n % 10)) (digits count (n / 10) <> digit (n % 10))
      (λ _. digit-IsLine (n % 10))
      (λ _.
        append-IsLine (digits count (n / 10)) (digit (n % 10)) (digits-IsLine count (n / 10))
          (digit-IsLine (n % 10)))

thousandths-IsLine : (n : ℕ) → IsLine (thousandths n)
unfolding no_break
thousandths-IsLine n =
    append-IsLine (decimal (n / 1000)) ("." <> digits 3 (n % 1000)) (digits-IsLine 20 (n / 1000))
      (append-IsLine "." (digits 3 (n % 1000)) refl (digits-IsLine 3 (n % 1000)))

abbrev piece : ℕ → String → Segment
piece index filename = record {
  index = index;
  duration = 4200;
  filename = filename;
  bytes = [];
  program_date_time = 7;
  kind = video;
  discontinuity = false;
  key_frame = true;
  created_at = 7;
}

abbrev two_pieces : MediaPlaylist
two_pieces =
    set_end_list
      (add_segment (piece 1 "b.ts") (add_segment (piece 0 "a.ts") (new_media_playlist 4 "VOD")))

two_pieces_text :
    render decimal thousandths decimal two_pieces
    ≡ written (
        "#EXTM3U" ∷ "#EXT-X-VERSION:3" ∷ "#EXT-X-TARGETDURATION:4" ∷ "#EXT-X-MEDIA-SEQUENCE:0"
        ∷ "#EXT-X-PLAYLIST-TYPE:VOD" ∷ "#EXT-X-PROGRAM-DATE-TIME:7" ∷ "#EXTINF:4.200," ∷ "a.ts"
        ∷ "#EXT-X-PROGRAM-DATE-TIME:7" ∷ "#EXTINF:4.200," ∷ "b.ts" ∷ "#EXT-X-ENDLIST" ∷ [])
unfolding program
two_pieces_text = refl

two_files : uris (render decimal thousandths decimal two_pieces) ≡ "a.ts" ∷ "b.ts" ∷ []
unfolding program
two_files = refl

pieces-AreUris : All (λ s. IsUri s.filename) two_pieces.segments
unfolding program
pieces-AreUris = ((refl, refl), ((refl, refl), tt))

vod-IsLine : IsLine two_pieces.playlist_type
unfolding program
vod-IsLine = refl

uris-render_example :
    uris (render decimal thousandths decimal two_pieces) ≡ map (λ s. s.filename) two_pieces.segments
uris-render_example =
    uris-render decimal thousandths decimal (digits-IsLine 20) thousandths-IsLine (digits-IsLine 20)
      two_pieces pieces-AreUris vod-IsLine

abbrev variant : String → ℕ → Variant
variant uri average = record {
  bandwidth = 500;
  average_bandwidth = average;
  codecs = "avc1.64001f,mp4a.40.2";
  resolution = "1280x720";
  frame_rate = 29_970;
  uri = uri;
  name = "720p";
  width = 1280;
  height = 720;
  video_bitrate = 400;
  audio_bitrate = 100;
}

abbrev master : MasterPlaylist
master = add_variant (variant "high.m3u8" 450) (new_master_playlist 7)

master_text :
    render_master decimal thousandths decimal master
    ≡ written (
        "#EXTM3U" ∷ "#EXT-X-VERSION:3"
        ∷ "#EXT-X-STREAM-INF:BANDWIDTH=500,AVERAGE-BANDWIDTH=450,CODECS=\"avc1.64001f,mp4a.40.2\",RESOLUTION=1280x720,FRAME-RATE=29.970"
        ∷ "high.m3u8" ∷ [])
unfolding program
master_text = refl
