-- ===== src/Hls/Tests.antt =====
-- Small segments, windows and playlists, and the CRC of a known text.
use text.Mathlib.Text.{◌==◌ as str_eq}
use text.Mathlib.TextEquality.{eq_iff}
use mathlib.Core.List.{Perm}
use zenlive.Common.{
  ◌+◌, Bool, ltb, ◌^◌, ℕ, zero, suc, String, ◌-◌, ◌*◌, ◌%◌, ◌≡◌, ◌≢◌, refl, List, [], ◌∷◌, ◌++◌,
  none, some, true, false, length, map, arith, string_discrete,
}
use zenlive.Hls.Buffer.{IsRoomy, empty_buffer, write, put_behind}
use zenlive.Hls.Writer.{
  new_ts_writer, pid_field, adaptation_control, control_byte, adaptation_field, stuffing, fill,
  packet_head, write_packet,
}
use zenlive.Hls.Pes.{
  advance, write_fragments, put_uint16, write_pts, header_with, pes_header, write_pes,
}
use zenlive.Hls.Tables.{
  Segment, muxed, crc_bit, crc_byte, crc_from, calculate_crc32, put_crc, pat_payload, write_pat,
  stream_entry, pmt_payload, write_pmt, stream_packets, concat, create_segment,
}
use zenlive.Hls.Segments.{
  pes_bytes, Sends, write_pes-Carries, write_pes-timestamps, IsPacked, create_segment_lem,
}
use zenlive.Hls.Playlist.{
  new_media_playlist, validate_playlist, durations, remove_old_segments, stale_count,
  remove_segments_before, first_error, segment_error,
}
use zenlive.Hls.Dvr.{
  Total, no_time, plus, minus, wrong_index, invalid_window_size, invalid_total_duration,
  is_negative, DvrWindow, is_stale, new_dvr_window, trimmed, trim_window, add_segment, clear,
  set_window_size, is_in_window, get_segment_by_index, get_segment_by_time, at_time,
  get_segment_range, overlapping, validate, first_wrong, add_all, create_playlist_from_window,
}
use zenlive.Hls.Window.{Call, add, resize, run, perform, IsWindow, run-new_dvr_window-IsWindow}
use zenlive.Hls.Lookup.{Agrees, get_segment_by_index-Agrees, validate-clear}
use zenlive.Hls.Fresh.{fresh_only, add_segment-fresh_only}
use zenlive.Hls.Export.{create_playlist_from_window-accepted}
use zenlive.Hls.Variants.{
  Variant, MasterPlaylist, new_master_playlist, add_variant, bubble, bubble_rounds,
  sort_variants_by_bandwidth, create_default_variants, validate_master_playlist,
  first_variant_error, variant_error,
}
use zenlive.Hls.Sorting.{IsSorted, sort_variants_by_bandwidth-IsSorted}

program : Unit {0}
unfolding empty_buffer write put_behind new_ts_writer pid_field adaptation_control control_byte
    adaptation_field stuffing fill packet_head write_packet advance write_fragments put_uint16
    write_pts header_with pes_header write_pes crc_bit crc_byte crc_from calculate_crc32 put_crc
    pat_payload write_pat stream_entry pmt_payload write_pmt stream_packets concat create_segment
    new_media_playlist validate_playlist durations remove_old_segments stale_count
    remove_segments_before first_error segment_error new_dvr_window is_stale trimmed trim_window
    add_segment clear set_window_size is_in_window get_segment_by_index get_segment_by_time at_time
    get_segment_range overlapping validate first_wrong add_all create_playlist_from_window run
    perform bubble bubble_rounds sort_variants_by_bandwidth create_default_variants string_discrete
    validate_master_playlist first_variant_error variant_error new_master_playlist add_variant
program = tt

-- The first array of a buffer, of 64 bytes.
zeros : ℕ → List ℕ
zeros zero = []
zeros (suc n) = 0 ∷ zeros n

length-zeros : (n : ℕ) → length (zeros n) ≡ n
unfolding zeros
length-zeros zero = refl
length-zeros (suc n) = omega (arith, length-zeros n)

abbrev array : ℕ → List ℕ
array n = zeros (64 - n)

array-IsRoomy : IsRoomy array
array-IsRoomy n = omega (arith, length-zeros (64 - n))

-- The CRC-32 of MPEG-2 of "123456789".
crc_known :
    calculate_crc32 (0x31 ∷ 0x32 ∷ 0x33 ∷ 0x34 ∷ 0x35 ∷ 0x36 ∷ 0x37 ∷ 0x38 ∷ 0x39 ∷ []) ≡ 0x0376e6e7
unfolding program
crc_known = refl

abbrev tune : List ℕ
tune = 1 ∷ 2 ∷ 3 ∷ []

write_pes-Carries_example :
    Sends array array-IsRoomy new_ts_writer 0x101
      (pes_bytes array array-IsRoomy tune 90_000 90_000 false)
      false
      (write_pes array new_ts_writer 0x101 tune 90_000 90_000 false)
write_pes-Carries_example =
    write_pes-Carries array array-IsRoomy new_ts_writer 0x101 tune 90_000 90_000 false

-- One second and two hours have the same packets.
write_pes-timestamps_example :
    write_pes array new_ts_writer 0x101 tune 90_000 90_000 false
    ≡ write_pes array new_ts_writer 0x101 tune 648_000_000 648_000_000 false
write_pes-timestamps_example =
    write_pes-timestamps array array-IsRoomy new_ts_writer 0x101 tune 90_000 648_000_000 false
      (omega arith)

create_segment_lem_example :
    IsPacked array array-IsRoomy
      (4 * 540_000 % 2 ^ 64)
      4
      tune
      []
      (create_segment array 540_000 "segment_4.ts" 7 4 6000 tune [])
create_segment_lem_example =
    create_segment_lem array array-IsRoomy 540_000 "segment_4.ts" 7 4 6000 tune []

-- A segment of six seconds that was created at this second.
abbrev piece : ℕ → ℕ → Segment
piece index second = record {
  index = index;
  duration = 6000;
  filename = "s.ts";
  bytes = [];
  program_date_time = 0;
  kind = muxed;
  discontinuity = false;
  key_frame = true;
  created_at = second * 1_000_000_000;
}

abbrev evening : List Call
evening =
    add 6_000_000_000 (piece 0 6)
    ∷ add 12_000_000_000 (piece 1 12)
    ∷ resize 12_000_000_000 10
    ∷ add 18_000_000_000 (piece 2 18)
    ∷ []

after_evening :
    map (λ (s : Segment). s.index) (run evening (new_dvr_window 60)).segments ≡ 1 ∷ 2 ∷ []
unfolding program
after_evening = refl

-- The sign of a total without roundings.
abbrev added : Total → ℕ
added no_time = 0
added (plus t n) = added t + n
added (minus t n) = added t

abbrev removed : Total → ℕ
removed no_time = 0
removed (plus t n) = removed t
removed (minus t n) = removed t + n

abbrev negative : Total → Bool
negative t = ltb (added t) (removed t)

evening_size : is_negative (run evening (new_dvr_window 60)).window_size ≡ false
unfolding program
evening_size = refl

evening_total : negative (run evening (new_dvr_window 60)).total_duration ≡ false
unfolding program
evening_total = refl

run-new_dvr_window-IsWindow_example :
    IsWindow (run evening (new_dvr_window 60))
    × (validate negative (run evening (new_dvr_window 60)) ≡ none)
run-new_dvr_window-IsWindow_example =
    run-new_dvr_window-IsWindow negative 60 evening (omega arith, (omega arith, (omega arith, tt)))
      evening_size evening_total

abbrev late : DvrWindow
late = record {
  window_size = 10;
  segments = piece 1 12 ∷ piece 2 18 ∷ [];
  start_sequence = 1;
  total_duration = plus (plus no_time 6000) 6000;
}

late-IsWindow : IsWindow late
unfolding program
late-IsWindow = record { indexed = (omega arith, (omega arith, tt)); total = refl }

get_segment_by_index-Agrees_example : Agrees 2 (is_in_window late 2) (get_segment_by_index late 2)
get_segment_by_index-Agrees_example =
    get_segment_by_index-Agrees late 2 late-IsWindow (omega arith) (omega arith)

piece_fresh : is_stale 24_000_000_000 late.window_size (piece 3 24) ≡ false
unfolding program
piece_fresh = refl

late_size : is_negative late.window_size ≡ false
unfolding program
late_size = refl

piece_total : negative (plus no_time 6000) ≡ false
piece_total = refl

-- A negative size, and a total that rounding made negative.
window_errors :
    (validate negative (new_dvr_window (2 ^ 64 - 1)) ≡ some invalid_window_size)
    × (validate negative (record late { total_duration = minus (plus no_time 6000) 6100 })
        ≡ some invalid_total_duration)
unfolding program
window_errors = (refl, refl)

-- With a size of 10 ^ 10 seconds the product wraps, and a segment of this moment is stale.
wrapped_size : is_stale 24_000_000_000 10_000_000_000 (piece 3 24) ≡ true
unfolding program
wrapped_size = refl

validate-clear_example :
    validate negative (add_segment 24_000_000_000 (piece 3 24) (clear late)) ≡ some (wrong_index 0)
validate-clear_example =
    validate-clear negative 24_000_000_000 (piece 3 24) late (omega arith) (omega arith)
      (omega arith) piece_fresh late_size piece_total

add_segment-fresh_only_example :
    (add_segment 24_000_000_000 (piece 3 24) late).segments
    ≡ fresh_only 24_000_000_000 10 (late.segments ++ piece 3 24 ∷ [])
add_segment-fresh_only_example =
    add_segment-fresh_only 24_000_000_000 (piece 3 24) late (omega arith) (omega arith)
      ((omega arith, (omega arith, tt)), ((omega arith, tt), (tt, tt)))

named : (s : String) → str_eq s "" ≡ false → s ≢ ""
named s h e = let t : str_eq s "" ≡ true = (eq_iff s "").1 e in cc

create_playlist_from_window-accepted_example :
    ((create_playlist_from_window 2 late).segments ≡ late.segments)
    × ((create_playlist_from_window 2 late).media_sequence ≡ 1)
    × (validate_playlist (create_playlist_from_window 2 late) ≡ none)
create_playlist_from_window-accepted_example =
    create_playlist_from_window-accepted 2 late (omega arith)
      ((omega arith, named "s.ts" refl), ((omega arith, named "s.ts" refl), tt))

abbrev mixed : MasterPlaylist
mixed = record {
  version = 3;
  variants =
      map
        (λ (b : ℕ). record {
          bandwidth = b;
          average_bandwidth = 0;
          codecs = "";
          resolution = "";
          frame_rate = 0;
          uri = "u";
          name = "";
          width = 0;
          height = 0;
          video_bitrate = 0;
          audio_bitrate = 0;
        })
        (3 ∷ 9 ∷ 5 ∷ 9 ∷ []);
  created_at = 0;
}

mixed_sorted :
    map (λ (v : Variant). v.bandwidth) (sort_variants_by_bandwidth mixed).variants
    ≡ 9 ∷ 9 ∷ 5 ∷ 3 ∷ []
unfolding program
mixed_sorted = refl

sort_variants_by_bandwidth-IsSorted_example :
    IsSorted (sort_variants_by_bandwidth mixed).variants
    × Perm (sort_variants_by_bandwidth mixed).variants mixed.variants
sort_variants_by_bandwidth-IsSorted_example = sort_variants_by_bandwidth-IsSorted mixed
