-- ===== src/Hls/Tables.antt =====
-- `WritePAT`, `WritePMT`, `calculateCRC32` and `CreateSegment` of pkg/streaming/hls/segment.go, with the
-- segment of types.go. The number `uint64(duration*90000)`, the file name that `Sprintf` gives and the
-- time are arguments; durations are in milliseconds.
use Prim.Native.Nat.{bit_xor}
use zenlive.Common.{
  ℕ, String, ◌+◌, ◌*◌, ◌/◌, ◌%◌, ◌^◌, List, [], ◌∷◌, ◌++◌, Option, some, Bool, true, false, ltb,
  ◌==◌, if◌then◌else◌, length, drop,
}
use zenlive.Rtmp.Bytes.{put_be32}
use zenlive.Hls.Buffer.{Buffer, empty_buffer, write, put_behind, ◌>>=◌}
use zenlive.Hls.Writer.{
  TsWriter, new_ts_writer, write_packet, pid_pat, pid_pmt, pid_pcr, pid_video, pid_audio,
}
use zenlive.Hls.Pes.{put_uint16, write_byte, write_pes}

-- One round of the inner loop, for bit `7 - i` of the byte; `crc << 1` wraps at 2 ^ 32.
unfoldable pub crc_bit : ℕ → ℕ → ℕ
crc_bit crc bit =
    if crc / 2 ^ 31 == bit then crc * 2 % 2 ^ 32 else bit_xor (crc * 2 % 2 ^ 32) 0x04c11db7

unfoldable pub crc_byte : ℕ → ℕ → ℕ
crc_byte crc b =
    crc_bit
      (crc_bit
        (crc_bit
          (crc_bit
            (crc_bit (crc_bit (crc_bit (crc_bit crc (b / 128 % 2)) (b / 64 % 2)) (b / 32 % 2))
              (b / 16 % 2))
            (b / 8 % 2))
          (b / 4 % 2))
        (b / 2 % 2))
      (b % 2)

unfoldable pub crc_from : ℕ → List ℕ → ℕ
crc_from crc [] = crc
crc_from crc (b ∷ bytes) = crc_from (crc_byte crc b) bytes

unfoldable pub calculate_crc32 : List ℕ → ℕ
calculate_crc32 bytes = crc_from 0xffffffff bytes

abbrev pub stream_type_h264 : ℕ
stream_type_h264 = 0x1b

abbrev pub stream_type_aac : ℕ
stream_type_aac = 0x0f

pub data SegmentType : Type 0 where
  video audio muxed : SegmentType

pub record Segment : Type 0 where
  pub index : ℕ
  pub duration : ℕ
  pub filename : String
  pub bytes : List ℕ
  pub program_date_time : ℕ
  pub kind : SegmentType
  pub discontinuity : Bool
  pub key_frame : Bool
  pub created_at : ℕ

unfoldable pub concat {ℓ} : {A : Type ℓ} → List (List A) → List A
concat [] = []
concat (x ∷ xs) = x ++ concat xs

module _ (grown : ℕ → List ℕ) where
  -- The checksum of what stands behind the pointer field, at the end.
  unfoldable pub put_crc : Buffer → Option Buffer
  put_crc b = put_behind grown (put_be32 (calculate_crc32 (drop 1 b.content))) b >>= λ b'.
      some (write grown (0 ∷ 0 ∷ 0 ∷ 0 ∷ []) b')

  abbrev pub table_start : ℕ → Buffer
  table_start table_id = write_byte grown table_id (write_byte grown 0 empty_buffer)

  -- Version and section numbers.
  abbrev pub section_numbers : Buffer → Buffer
  section_numbers b = write_byte grown 0 (write_byte grown 0 (write_byte grown 0xc1 b))

  unfoldable pub pat_payload : Option Buffer
  pat_payload = put_uint16 grown (0xb000 + 13) (table_start 0) >>= put_uint16 grown 1 >>= λ b.
      put_uint16 grown 1 (section_numbers b) >>= put_uint16 grown (0xe000 + pid_pmt) >>= put_crc

  -- `WritePAT()`; the table's packet and the writer, or a panic.
  unfoldable pub write_pat : TsWriter → Option (List ℕ × TsWriter)
  write_pat w = pat_payload >>= λ b. some (write_packet w pid_pat b.content false true true)

  -- An elementary stream in the program map.
  unfoldable pub stream_entry : ℕ → ℕ → Buffer → Option Buffer
  stream_entry stream_type pid b =
      put_uint16 grown (0xe000 + pid) (write_byte grown stream_type b) >>= put_uint16 grown 0xf000

  unfoldable pub pmt_payload : Bool → Bool → Option Buffer
  pmt_payload has_video has_audio =
      let section_length = 13 + (if has_video then 5 else 0) + (if has_audio then 5 else 0) in
      put_uint16 grown (0xb000 + section_length) (table_start 2) >>= put_uint16 grown 1 >>= λ b.
      put_uint16 grown (0xe000 + pid_pcr) (section_numbers b) >>= put_uint16 grown 0xf000 >>= λ b.
      (if has_video then stream_entry stream_type_h264 pid_video b else some b) >>= λ b.
      (if has_audio then stream_entry stream_type_aac pid_audio b else some b) >>= put_crc

  unfoldable pub write_pmt : TsWriter → Bool → Bool → Option (List ℕ × TsWriter)
  write_pmt w has_video has_audio = pmt_payload has_video has_audio >>= λ b.
      some (write_packet w pid_pmt b.content false true true)

  -- The packets of one stream, none if it has no data.
  unfoldable pub stream_packets :
      TsWriter → ℕ → List ℕ → ℕ → Bool → Option (List (List ℕ) × TsWriter)
  stream_packets w pid [] pts is_video = some ([], w)
  stream_packets w pid (b ∷ bytes) pts is_video = write_pes grown w pid (b ∷ bytes) pts pts is_video

  -- `CreateSegment(index, duration, videoData, audioData)`
  unfoldable pub create_segment :
      (ticks : ℕ) (filename : String) (now : ℕ) (index duration : ℕ)
      (video_data audio_data : List ℕ)
      → Option Segment
  create_segment ticks filename now index duration video_data audio_data =
      let base_pts = index * ticks % 2 ^ 64 in
      write_pat new_ts_writer >>= λ pat.
      write_pmt pat.1 (ltb 0 (length video_data)) (ltb 0 (length audio_data)) >>= λ pmt.
      stream_packets pmt.1 pid_video video_data base_pts true >>= λ pictures.
      stream_packets pictures.1 pid_audio audio_data base_pts false >>= λ sound. some (record {
        index = index;
        duration = duration;
        filename = filename;
        bytes = pat.0 ++ pmt.0 ++ concat pictures.0 ++ concat sound.0;
        program_date_time = now;
        kind = muxed;
        discontinuity = false;
        key_frame = true;
        created_at = now;
      })
