-- ===== src/Hls/Sections.antt =====
-- The program tables of pkg/streaming/hls/segment.go as they are in the packets.
use mathlib.Core.List.{append-nil}
use zenlive.Common.{
  ℕ, ◌+◌, ◌≤◌, refl, sym, ◌∙◌, List, [], ◌∷◌, ◌++◌, some, Bool, true, false, if◌then◌else◌, length,
  length-append, arith,
}
use zenlive.Hls.Buffer.{Buffer, ◌>>=◌, IsRoomy, Has, Holds, write-Has_first}
use zenlive.Hls.Writer.{pid_pmt, pid_pcr, pid_video, pid_audio}
use zenlive.Hls.Pes.{put_uint16}
use zenlive.Hls.Tables.{
  table_start, section_numbers, pat_payload, stream_entry, pmt_payload, stream_type_aac,
  stream_type_h264,
}
use zenlive.Hls.Headers.{
  After, bind-Holds, put_uint16-After, put_crc-After, write_byte-Has, two_fields, byte_and_fields,
}

abbrev pub pat_bytes : List ℕ
pat_bytes = 0 ∷ 0 ∷ 0 ∷ 0 ∷ 0 ∷ 0 ∷ 0xc1 ∷ 0 ∷ 0 ∷ 0 ∷ 0 ∷ 0 ∷ 0 ∷ 0 ∷ 0 ∷ 0 ∷ 0 ∷ []

abbrev entry_bytes : Bool → ℕ → List ℕ
entry_bytes present stream_type = if present then stream_type ∷ 0 ∷ 0 ∷ 0 ∷ 0 ∷ [] else []

abbrev pmt_start : List ℕ
pmt_start = 0 ∷ 2 ∷ 0 ∷ 0 ∷ 0 ∷ 0 ∷ 0xc1 ∷ 0 ∷ 0 ∷ 0 ∷ 0 ∷ 0 ∷ 0 ∷ []

abbrev pub pmt_bytes : Bool → Bool → List ℕ
pmt_bytes has_video has_audio =
    ((pmt_start ++ entry_bytes has_video stream_type_h264) ++ entry_bytes has_audio stream_type_aac)
    ++ 0 ∷ 0 ∷ 0 ∷ 0 ∷ []

entry_fits : (present : Bool) (stream_type : ℕ) → length (entry_bytes present stream_type) ≤ 5
entry_fits present stream_type = ground arith

module _ (grown : ℕ → List ℕ) (roomy : IsRoomy grown) where
  -- The first fields of a table: its id, its length and its number.
  table-Holds :
      (id length_field : ℕ)
      → Holds grown
          (0 ∷ id ∷ 0 ∷ 0 ∷ 0 ∷ 0 ∷ [])
          (put_uint16 grown length_field (table_start grown id) >>= put_uint16 grown 1)
  table-Holds id length_field =
      bind-Holds grown roomy (0 ∷ id ∷ 0 ∷ 0 ∷ []) (0 ∷ id ∷ 0 ∷ 0 ∷ 0 ∷ 0 ∷ []) _ _
        (put_uint16-After grown roomy (0 ∷ id ∷ []) length_field (omega arith)
          (table_start grown id)
          (write_byte-Has grown roomy (0 ∷ []) id _ (write-Has_first grown 0 roomy)))
        (put_uint16-After grown roomy (0 ∷ id ∷ 0 ∷ 0 ∷ []) 1 (omega arith))

  numbers_Has :
      (id : ℕ) (b : Buffer)
      → Has grown (0 ∷ id ∷ 0 ∷ 0 ∷ 0 ∷ 0 ∷ []) b
      → Has grown (0 ∷ id ∷ 0 ∷ 0 ∷ 0 ∷ 0 ∷ 0xc1 ∷ 0 ∷ 0 ∷ []) (section_numbers grown b)
  numbers_Has id b h = write_byte-Has grown roomy (0 ∷ id ∷ 0 ∷ 0 ∷ 0 ∷ 0 ∷ 0xc1 ∷ 0 ∷ []) 0 _ (
      write_byte-Has grown roomy (0 ∷ id ∷ 0 ∷ 0 ∷ 0 ∷ 0 ∷ 0xc1 ∷ []) 0 _
        (write_byte-Has grown roomy (0 ∷ id ∷ 0 ∷ 0 ∷ 0 ∷ 0 ∷ []) 0xc1 b h))

  pub pat_payload-Holds : Holds grown pat_bytes (pat_payload grown)
  unfolding pat_payload
  pat_payload-Holds =
      bind-Holds grown roomy (0 ∷ 0 ∷ 0 ∷ 0 ∷ 0 ∷ 0 ∷ []) pat_bytes _ _
        (table-Holds 0 (0xb000 + 13))
        (λ b h.
          bind-Holds grown roomy (0 ∷ 0 ∷ 0 ∷ 0 ∷ 0 ∷ 0 ∷ 0xc1 ∷ 0 ∷ 0 ∷ 0 ∷ 0 ∷ 0 ∷ 0 ∷ [])
            pat_bytes _ _
            (two_fields grown roomy (0 ∷ 0 ∷ 0 ∷ 0 ∷ 0 ∷ 0 ∷ 0xc1 ∷ 0 ∷ 0 ∷ []) 1 (0xe000 + pid_pmt)
              _ (omega arith) (numbers_Has 0 b h))
            (put_crc-After grown roomy (0 ∷ 0 ∷ 0 ∷ 0 ∷ 0 ∷ 0 ∷ 0xc1 ∷ 0 ∷ 0 ∷ 0 ∷ 0 ∷ 0 ∷ 0 ∷ [])
              (omega arith)))

  -- The entry of a stream, or nothing.
  entry_After :
      (present : Bool) (stream_type pid : ℕ) (bs : List ℕ)
      → length bs + 5 ≤ 64
      → After grown roomy bs
          (λ b. if present then stream_entry grown stream_type pid b else some b)
          (bs ++ entry_bytes present stream_type)
  unfolding stream_entry
  entry_After true stream_type pid bs fits b h =
      byte_and_fields grown roomy bs stream_type (0xe000 + pid) 0xf000 b fits h
  entry_After false stream_type pid bs fits b h = (b, refl, (h.0 ∙ sym (append-nil bs), h.1))

  pub pmt_payload-Holds :
      (has_video has_audio : Bool)
      → Holds grown (pmt_bytes has_video has_audio) (pmt_payload grown has_video has_audio)
  unfolding pmt_payload
  pmt_payload-Holds has_video has_audio =
      let bytes = pmt_start ++ entry_bytes has_video stream_type_h264 in
      bind-Holds grown roomy (0 ∷ 2 ∷ 0 ∷ 0 ∷ 0 ∷ 0 ∷ []) (pmt_bytes has_video has_audio) _ _
        (table-Holds 2 _)
        (λ b h.
          bind-Holds grown roomy pmt_start (pmt_bytes has_video has_audio) _ _
            (two_fields grown roomy (0 ∷ 2 ∷ 0 ∷ 0 ∷ 0 ∷ 0 ∷ 0xc1 ∷ 0 ∷ 0 ∷ []) (0xe000 + pid_pcr)
              0xf000 _ (omega arith) (numbers_Has 2 b h))
            (λ b h.
              bind-Holds grown roomy bytes (pmt_bytes has_video has_audio) _ _
                (entry_After has_video stream_type_h264 pid_video pmt_start (omega arith) b h)
                (λ b h.
                  bind-Holds grown roomy (bytes ++ entry_bytes has_audio stream_type_aac)
                    (pmt_bytes has_video has_audio) _ _
                    (entry_After has_audio stream_type_aac pid_audio bytes
                      (omega (arith, entry_fits has_video stream_type_h264)) b h)
                    (put_crc-After grown roomy (bytes ++ entry_bytes has_audio stream_type_aac) (
                      omega (
                        arith,
                        length-append {0} bytes (entry_bytes has_audio stream_type_aac),
                        entry_fits has_video stream_type_h264,
                        entry_fits has_audio stream_type_aac,
                      ))))))
