-- ===== src/Hls/Segments.antt =====
-- What `WritePES` and `CreateSegment` of pkg/streaming/hls/segment.go put into a segment.
use mathlib.Core.Path.{subst}
use zenlive.Common.{
  ℕ, String, ◌+◌, ◌*◌, ◌/◌, ◌%◌, ◌^◌, ◌≡◌, refl, sym, ap, ◌∙◌, List, [], ◌∷◌, ◌++◌, Option, some,
  Bool, true, false, not, ltb, ◌==◌, ◌&&◌, length, length-append, All, nat_key, ==_iff, arith,
}
use zenlive.Hls.Buffer.{IsRoomy}
use zenlive.Hls.Writer.{
  TsWriter, new_ts_writer, write_packet, pid_pat, pid_pmt, pid_video, pid_audio,
}
use zenlive.Hls.Pes.{write_fragments, pes_header, write_pes}
use zenlive.Hls.Tables.{
  Segment, write_pat, write_pmt, stream_packets, create_segment, concat, muxed,
}
use zenlive.Hls.Headers.{timestamp_bytes, header_bytes, pes_header-Holds}
use zenlive.Hls.Sections.{pat_bytes, pmt_bytes, pat_payload-Holds, pmt_payload-Holds}
use zenlive.Hls.Numbering.{counter, Numbered, write_fragments-Numbered}
use zenlive.Hls.Fragments.{Carries, write_fragments_lem, length-write_packet}

length-concat :
    (packets : List (List ℕ))
    → All (λ p. length p ≡ 188) packets
    → length (concat packets) ≡ 188 * length packets
unfolding concat
length-concat [] h = omega arith
length-concat (p ∷ packets) h =
    omega (arith, length-append {0} p (concat packets), length-concat packets h.1, h.0)

module _ (grown : ℕ → List ℕ) (roomy : IsRoomy grown) where
  -- The elementary stream packet of the data: its header, and the data.
  abbrev pub pes_bytes : List ℕ → ℕ → ℕ → Bool → List ℕ
  pes_bytes bytes pts dts is_video =
      header_bytes (is_video && not (dts == pts)) pts dts is_video ++ bytes

  pub write_pes-eq :
      (w : TsWriter) (pid : ℕ) (bytes : List ℕ) (pts dts : ℕ) (is_video : Bool)
      → write_pes grown w pid bytes pts dts is_video
        ≡ write_fragments
            (length (pes_bytes bytes pts dts is_video))
            w
            pid
            is_video
            true
            (pes_bytes bytes pts dts is_video)
  unfolding write_pes pes_header
  write_pes-eq w pid bytes pts dts is_video =
      let (b, e, (held, _)) =
        pes_header-Holds grown roomy (is_video && not (dts == pts)) (length bytes) pts dts
          is_video in
      rw e (rw held)

  -- The result is packets that carry the elementary stream packet and are numbered, and a writer.
  abbrev pub Sends : TsWriter → ℕ → List ℕ → Bool → Option (List (List ℕ) × TsWriter) → Type 0
  Sends w pid pes is_video r =
      (packets : List (List ℕ)) × (w' : TsWriter) × (r ≡ some (packets, w'))
      × Carries is_video pes packets
      × Numbered (counter pid w) packets

  -- `WritePES` does not fail, where no array of a buffer is smaller than 64 bytes. The payloads of its packets, put
  -- together, are the header and the data, filled up with less than a packet of 0xFF; each
  -- packet has 188 bytes, and its fourth byte is the continuity counter, which goes up by 1
  -- modulo 16, with no control bits.
  pub write_pes-Carries :
      (w : TsWriter) (pid : ℕ) (bytes : List ℕ) (pts dts : ℕ) (is_video : Bool)
      → Sends w pid
          (pes_bytes bytes pts dts is_video)
          is_video
          (write_pes grown w pid bytes pts dts is_video)
  write_pes-Carries w pid bytes pts dts is_video =
      let pes = pes_bytes bytes pts dts is_video in
      let (packets, w', sent, carried) =
        write_fragments_lem (length pes) w pid is_video true pes (omega arith) in
      (
        packets,
        w',
        write_pes-eq w pid bytes pts dts is_video ∙ sent,
        carried,
        write_fragments-Numbered (length pes) w w' pid is_video true pes packets sent,
      )

  same_header :
      (pts pts' : ℕ) (is_video : Bool)
      → pts / 2 ^ 30 % 8 ≡ pts' / 2 ^ 30 % 8
      → header_bytes (is_video && not (pts == pts)) pts pts is_video
        ≡ header_bytes (is_video && not (pts' == pts')) pts' pts' is_video
  unfolding header_bytes timestamp_bytes
  same_header pts pts' is_video e =
      rw ((==_iff pts pts).1 refl, (==_iff pts' pts').1 refl) (ground arith)

  -- A presentation time without another decoding time goes into the packets with its upper three
  -- bits only: two times that agree in these give the same packets and writer, where no array
  -- of a buffer is smaller than 64 bytes.
  pub write_pes-timestamps :
      (w : TsWriter) (pid : ℕ) (bytes : List ℕ) (pts pts' : ℕ) (is_video : Bool)
      → pts / 2 ^ 30 % 8 ≡ pts' / 2 ^ 30 % 8
      → write_pes grown w pid bytes pts pts is_video
        ≡ write_pes grown w pid bytes pts' pts' is_video
  write_pes-timestamps w pid bytes pts pts' is_video e =
      write_pes-eq w pid bytes pts pts is_video
      ∙ ap (λ h. write_fragments (length (h ++ bytes)) w pid is_video true (h ++ bytes))
          (same_header pts pts' is_video e)
      ∙ sym (write_pes-eq w pid bytes pts' pts' is_video)

  -- What a segment has of one stream: nothing if it has no data, or the packets that carry it.
  abbrev pub Streams : Bool → ℕ → List ℕ → List (List ℕ) → Type 0
  Streams is_video pts [] packets = packets ≡ []
  Streams is_video pts (b ∷ bytes) packets =
      Carries is_video (pes_bytes (b ∷ bytes) pts pts is_video) packets

  stream_packets-Streams :
      (w : TsWriter) (pid : ℕ) (bytes : List ℕ) (pts : ℕ) (is_video : Bool)
      → (packets : List (List ℕ)) × (w' : TsWriter) × (stream_packets grown w pid bytes pts is_video
          ≡ some (packets, w'))
        × Streams is_video pts bytes packets
  unfolding stream_packets
  stream_packets-Streams w pid [] pts is_video = ([], w, refl, refl)
  stream_packets-Streams w pid (b ∷ bytes) pts is_video =
      let (packets, w', sent, carried, _) = write_pes-Carries w pid (b ∷ bytes) pts pts is_video in
      (packets, w', sent, carried)

  Streams-All :
      (is_video : Bool) (pts : ℕ) (bytes : List ℕ) (packets : List (List ℕ))
      → Streams is_video pts bytes packets
      → All (λ p. length p ≡ 188) packets
  Streams-All is_video pts [] packets none_sent =
      subst (All (λ p. length p ≡ 188)) (sym none_sent) tt
  Streams-All is_video pts (b ∷ bytes) packets carried = carried.1

  write_pat_lem :
      (w : TsWriter) → write_pat grown w ≡ some (write_packet w pid_pat pat_bytes false true true)
  unfolding write_pat
  write_pat_lem w = let (b, e, (held, _)) = pat_payload-Holds grown roomy in rw e (rw held)

  write_pmt_lem :
      (w : TsWriter) (has_video has_audio : Bool)
      → write_pmt grown w has_video has_audio
        ≡ some (write_packet w pid_pmt (pmt_bytes has_video has_audio) false true true)
  unfolding write_pmt
  write_pmt_lem w has_video has_audio =
      let (b, e, (held, _)) = pmt_payload-Holds grown roomy has_video has_audio in rw e (rw held)

  -- The packets of the tables of a segment, of which the second knows which streams there are.
  abbrev pub tables : Bool → Bool → List ℕ
  tables has_video has_audio =
      let pat = write_packet new_ts_writer pid_pat pat_bytes false true true in
      pat.0 ++ (write_packet pat.1 pid_pmt (pmt_bytes has_video has_audio) false true true).0

  -- The segment has the index, and consists of the two tables, the packets of the video and those of
  -- the audio, of 188 bytes each.
  abbrev pub IsPacked : ℕ → ℕ → List ℕ → List ℕ → Option Segment → Type 0
  IsPacked pts index video_data audio_data r =
      (s : Segment) × (pictures sound : List (List ℕ)) × (r ≡ some s)
      × (s.index ≡ index)
      × (s.bytes
          ≡ tables (ltb 0 (length video_data)) (ltb 0 (length audio_data))
            ++ concat pictures
            ++ concat sound)
      × (length s.bytes ≡ 188 * (2 + length pictures + length sound))
      × Streams true pts video_data pictures
      × Streams false pts audio_data sound

  -- `CreateSegment` does not fail, where no array of a buffer is smaller than 64 bytes: its segment
  -- has the index and the two tables, then packets that carry the video, then packets that carry
  -- the audio, none for a stream without data, and is as long as its packets of 188 bytes.
  pub create_segment_lem :
      (ticks : ℕ) (filename : String) (now index duration : ℕ) (video_data audio_data : List ℕ)
      → IsPacked
          (index * ticks % 2 ^ 64)
          index
          video_data
          audio_data
          (create_segment grown ticks filename now index duration video_data audio_data)
  unfolding create_segment
  create_segment_lem ticks filename now index duration video_data audio_data =
      let pat = write_packet new_ts_writer pid_pat pat_bytes false true true in
      let pmt =
        write_packet pat.1 pid_pmt
          (pmt_bytes (ltb 0 (length video_data)) (ltb 0 (length audio_data))) false true true in
      let pts = index * ticks % 2 ^ 64 in
      let (pictures, w, sent, carried) =
        stream_packets-Streams pmt.1 pid_video video_data pts true in
      let (sound, w', sent', carried') = stream_packets-Streams w pid_audio audio_data pts false in
      let s : Segment = record {
        index = index;
        duration = duration;
        filename = filename;
        bytes = pat.0 ++ pmt.0 ++ concat pictures ++ concat sound;
        program_date_time = now;
        kind = muxed;
        discontinuity = false;
        key_frame = true;
        created_at = now;
      } in
      (
        s,
        pictures,
        sound,
        rw (write_pat_lem new_ts_writer) (
            rw (write_pmt_lem pat.1 (ltb 0 (length video_data)) (ltb 0 (length audio_data)))
              (rw sent (rw sent'))),
        refl,
        refl,
        omega (
          arith,
          length-append {0} (pat.0 ++ pmt.0 ++ concat pictures) (concat sound),
          length-append {0} (pat.0 ++ pmt.0) (concat pictures),
          length-append {0} pat.0 pmt.0,
          length-write_packet new_ts_writer pid_pat pat_bytes false true true,
          length-write_packet pat.1 pid_pmt
              (pmt_bytes (ltb 0 (length video_data)) (ltb 0 (length audio_data))) false true true,
          length-concat pictures (Streams-All true pts video_data pictures carried),
          length-concat sound (Streams-All false pts audio_data sound carried'),
        ),
        carried,
        carried',
      )
