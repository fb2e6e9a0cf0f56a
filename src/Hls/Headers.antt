-- ===== src/Hls/Headers.antt =====
-- The headers and tables of pkg/streaming/hls/segment.go as they are in the packets: each field that
-- is put behind the buffer is overwritten with zeros.
use mathlib.Core.List.{append_assoc, append-nil}
use mathlib.Core.Path.{subst}
use zenlive.Common.{
  ℕ, ◌+◌, ◌*◌, ◌/◌, ◌%◌, ◌^◌, ◌≤◌, refl, sym, ◌∙◌, length-append, List, [], ◌∷◌, ◌++◌, Option, some,
  Bool, true, false, if◌then◌else◌, length, drop, arith,
}
use zenlive.Rtmp.Bytes.{byte, put_be16, put_be32}
use zenlive.Hls.Buffer.{
  Buffer, empty_buffer, write, put_behind, ◌>>=◌, IsRoomy, Has, Holds, write-Has, write-Has_first,
  put_behind-Holds,
}
use zenlive.Hls.Pes.{put_uint16, write_byte, write_pts, header_with}
use zenlive.Hls.Tables.{calculate_crc32, put_crc}

-- Of the 33 bits of a timestamp only the upper three are written.
unfoldable pub timestamp_bytes : ℕ → ℕ → List ℕ
timestamp_bytes timestamp marker =
    (byte (marker * 16) + timestamp / 2 ^ 30 % 8 * 2 + 1) ∷ 0 ∷ 0 ∷ 0 ∷ 0 ∷ []

-- The bytes of the header of a PES packet.
unfoldable pub header_bytes : Bool → ℕ → ℕ → Bool → List ℕ
header_bytes both pts dts is_video =
    0
    ∷ 0
    ∷ 1
    ∷ (if is_video then 0xe0 else 0xc0)
    ∷ 0
    ∷ 0
    ∷ 0x80
    ∷ (if both then 0xc0 else 0x80)
    ∷ (if both then 10 else 5)
    ∷ (timestamp_bytes pts (if both then 3 else 2) ++ (if both then timestamp_bytes dts 1 else []))

module _ (grown : ℕ → List ℕ) (roomy : IsRoomy grown) where
  -- What the next step makes of the bytes, whatever the buffer is that holds them.
  abbrev pub After : List ℕ → (Buffer → Option Buffer) → List ℕ → Type 0
  After bs f cs = (b : Buffer) → Has grown bs b → Holds grown cs (f b)

  pub bind-Holds :
      (bs cs : List ℕ) (m : Option Buffer) (f : Buffer → Option Buffer)
      → Holds grown bs m
      → After bs f cs
      → Holds grown cs (m >>= f)
  bind-Holds bs cs m f (b, e, h) k = rw e (k b h)

  -- A field is put behind the bytes and overwritten with zeros of its width.
  zeroed :
      (bs p zeros : List ℕ) (b : Buffer)
      → Has grown bs b
      → length bs + length p ≤ 64
      → Holds grown (bs ++ zeros) (put_behind grown p b >>= λ b'. some (write grown zeros b'))
  zeroed bs p zeros b h fits =
      bind-Holds bs (bs ++ zeros) (put_behind grown p b) (λ b'. some (write grown zeros b'))
        (put_behind-Holds grown bs p b h fits)
        (λ b' h'. (write grown zeros b', refl, write-Has grown bs zeros b' roomy h'))

  pub put_uint16-After :
      (bs : List ℕ) (v : ℕ) → length bs + 2 ≤ 64 → After bs (put_uint16 grown v) (bs ++ 0 ∷ 0 ∷ [])
  unfolding put_uint16
  put_uint16-After bs v fits b h = zeroed bs (put_be16 v) (0 ∷ 0 ∷ []) b h fits

  pub put_crc-After :
      (bs : List ℕ) → length bs + 4 ≤ 64 → After bs (put_crc grown) (bs ++ 0 ∷ 0 ∷ 0 ∷ 0 ∷ [])
  unfolding put_crc
  put_crc-After bs fits b h =
      zeroed bs (put_be32 (calculate_crc32 (drop 1 b.content))) (0 ∷ 0 ∷ 0 ∷ 0 ∷ []) b h fits

  pub write_byte-Has :
      (bs : List ℕ) (c : ℕ) (b : Buffer)
      → Has grown bs b
      → Has grown (bs ++ c ∷ []) (write_byte grown c b)
  write_byte-Has bs c b h = write-Has grown bs (c ∷ []) b roomy h

  -- Two fields in a row.
  pub two_fields :
      (bs : List ℕ) (u v : ℕ) (b : Buffer)
      → length bs + 4 ≤ 64
      → Has grown bs b
      → Holds grown ((bs ++ 0 ∷ 0 ∷ []) ++ 0 ∷ 0 ∷ []) (put_uint16 grown u b >>= put_uint16 grown v)
  two_fields bs u v b fits h =
      bind-Holds (bs ++ 0 ∷ 0 ∷ []) ((bs ++ 0 ∷ 0 ∷ []) ++ 0 ∷ 0 ∷ []) _ _
        (put_uint16-After bs u (omega arith) b h)
        (put_uint16-After (bs ++ 0 ∷ 0 ∷ []) v (omega (arith, length-append {0} bs (0 ∷ 0 ∷ []))))

  -- A byte and two fields in a row.
  pub byte_and_fields :
      (bs : List ℕ) (c u v : ℕ) (b : Buffer)
      → length bs + 5 ≤ 64
      → Has grown bs b
      → Holds grown
          (bs ++ c ∷ 0 ∷ 0 ∷ 0 ∷ 0 ∷ [])
          (put_uint16 grown u (write_byte grown c b) >>= put_uint16 grown v)
  byte_and_fields bs c u v b fits h =
      subst
        (λ cs. Holds grown cs (put_uint16 grown u (write_byte grown c b) >>= put_uint16 grown v))
        (append_assoc (bs ++ c ∷ []) (0 ∷ 0 ∷ []) (0 ∷ 0 ∷ [])
          ∙ append_assoc bs (c ∷ []) (0 ∷ 0 ∷ 0 ∷ 0 ∷ []))
        (two_fields (bs ++ c ∷ []) u v (write_byte grown c b)
          (omega (arith, length-append {0} bs (c ∷ []))) (write_byte-Has bs c b h))

  pub write_pts-After :
      (bs : List ℕ) (timestamp marker : ℕ)
      → length bs + 5 ≤ 64
      → After bs (λ b. write_pts grown b timestamp marker) (bs ++ timestamp_bytes timestamp marker)
  unfolding write_pts timestamp_bytes
  write_pts-After bs timestamp marker fits b h =
      byte_and_fields bs (byte (marker * 16) + timestamp / 2 ^ 30 % 8 * 2 + 1)
        (timestamp / 2 ^ 15 % 2 ^ 15 * 2 + 1) (timestamp % 2 ^ 15 * 2 + 1) b fits h

  -- The header starts with its code and its length, which is lost.
  start_Has :
      (id : ℕ)
      → Has grown (0 ∷ 0 ∷ 1 ∷ id ∷ []) (
          write_byte grown id
            (write_byte grown 1 (write_byte grown 0 (write_byte grown 0 empty_buffer))))
  start_Has id = write_byte-Has (0 ∷ 0 ∷ 1 ∷ []) id _ (
      write_byte-Has (0 ∷ 0 ∷ []) 1 _ (write_byte-Has (0 ∷ []) 0 _ (write-Has_first grown 0 roomy)))

  -- The second timestamp, where there is one.
  second_After :
      (both : Bool) (bs : List ℕ) (dts : ℕ)
      → length bs + 5 ≤ 64
      → After bs
          (λ b. if both then write_pts grown b dts 1 else some b)
          (bs ++ (if both then timestamp_bytes dts 1 else []))
  second_After true bs dts fits b h = write_pts-After bs dts 1 fits b h
  second_After false bs dts fits b h = (b, refl, (h.0 ∙ sym (append-nil bs), h.1))

  pub pes_header-Holds :
      (both : Bool) (size pts dts : ℕ) (is_video : Bool)
      → Holds grown
          (header_bytes both pts dts is_video)
          (header_with grown both size pts dts is_video)
  unfolding header_with header_bytes timestamp_bytes
  pes_header-Holds both size pts dts is_video =
      let id = if is_video then 0xe0 else 0xc0 in
      let sized : List ℕ = 0 ∷ 0 ∷ 1 ∷ id ∷ 0 ∷ 0 ∷ [] in
      let flag = if both then 0xc0 else 0x80 in
      let size_of = if both then 10 else 5 in
      let flagged : List ℕ = 0 ∷ 0 ∷ 1 ∷ id ∷ 0 ∷ 0 ∷ 0x80 ∷ flag ∷ size_of ∷ [] in
      let stamp = timestamp_bytes pts (if both then 3 else 2) in
      bind-Holds sized (header_bytes both pts dts is_video) _ _
        (put_uint16-After (0 ∷ 0 ∷ 1 ∷ id ∷ []) (if is_video then 0 else (size + 8) % 2 ^ 16)
          (omega arith)
          (write_byte grown id
            (write_byte grown 1 (write_byte grown 0 (write_byte grown 0 empty_buffer))))
          (start_Has id))
        (λ b h.
          bind-Holds (flagged ++ stamp) (header_bytes both pts dts is_video) _ _
            (write_pts-After flagged pts (if both then 3 else 2) (omega arith) _ (
              write_byte-Has (0 ∷ 0 ∷ 1 ∷ id ∷ 0 ∷ 0 ∷ 0x80 ∷ flag ∷ []) size_of _ (
                write_byte-Has (0 ∷ 0 ∷ 1 ∷ id ∷ 0 ∷ 0 ∷ 0x80 ∷ []) flag _
                  (write_byte-Has sized 0x80 b h))))
            (second_After both (flagged ++ stamp) dts (omega arith)))
