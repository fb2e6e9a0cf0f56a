-- ===== src/Hls/Pes.antt =====
-- `WritePES` and `writePTS` of pkg/streaming/hls/segment.go.
use zenlive.Common.{
  ℕ, zero, suc, ◌+◌, ◌-◌, ◌*◌, ◌/◌, ◌%◌, ◌^◌, List, [], ◌∷◌, ◌++◌, Option, none, some, Bool, true,
  false, not, ltb, ◌==◌, ◌&&◌, if◌then◌else◌, length, drop,
}
use zenlive.Rtmp.Bytes.{byte, put_be16}
use zenlive.Hls.Buffer.{Buffer, empty_buffer, write, put_behind, ◌>>=◌}
use zenlive.Hls.Writer.{TsWriter, write_packet, ts_packet_size}

-- `offset += payloadSize`, or the end of the packet if less is left: what follows the offset.
unfoldable pub advance : ℕ → List ℕ → List ℕ
advance size rest = if ltb (length rest) size then [] else drop size rest

-- The loop over the fragments; `rest` is `pesPacket[offset:]`. `none` means that the fuel ran out.
unfoldable pub write_fragments :
    ℕ → TsWriter → ℕ → Bool → Bool → List ℕ → Option (List (List ℕ) × TsWriter)
write_fragments fuel w pid is_video first [] = some ([], w)
write_fragments zero w pid is_video first (b ∷ rest) = none
write_fragments (suc fuel) w pid is_video first (b ∷ rest) =
    let written = write_packet w pid (b ∷ rest) (first && is_video) true first in
    let header_size = if first && is_video then 12 else 4 in
    let left = advance (ts_packet_size - header_size) (b ∷ rest) in
    write_fragments fuel written.1 pid is_video false left >>= λ r. some (written.0 ∷ r.0, r.1)

module _ (grown : ℕ → List ℕ) where
  -- A two byte field: `PutUint16` behind the content, then `Write(make([]byte, 2))`.
  unfoldable pub put_uint16 : ℕ → Buffer → Option Buffer
  put_uint16 v b = put_behind grown (put_be16 v) b >>= λ b'. some (write grown (0 ∷ 0 ∷ []) b')

  -- `buf.WriteByte(c)`
  abbrev pub write_byte : ℕ → Buffer → Buffer
  write_byte c b = write grown (c ∷ []) b

  unfoldable pub write_pts : Buffer → ℕ → ℕ → Option Buffer
  write_pts b timestamp marker =
      put_uint16 (timestamp / 2 ^ 15 % 2 ^ 15 * 2 + 1)
        (write_byte (byte (marker * 16) + timestamp / 2 ^ 30 % 8 * 2 + 1) b)
      >>= put_uint16 (timestamp % 2 ^ 15 * 2 + 1)

  -- The header of a PES packet for `size` bytes of data, with one timestamp or with both: `both` says
  -- that `ptsFlags` is 0xC0.
  unfoldable pub header_with : Bool → ℕ → ℕ → ℕ → Bool → Option Buffer
  header_with both size pts dts is_video =
      let start =
        write_byte (if is_video then 0xe0 else 0xc0)
          (write_byte 1 (write_byte 0 (write_byte 0 empty_buffer))) in
      put_uint16 (if is_video then 0 else (size + 8) % 2 ^ 16) start >>= λ b.
      write_pts
        (write_byte (if both then 10 else 5)
          (write_byte (if both then 0xc0 else 0x80) (write_byte 0x80 b)))
        pts (if both then 3 else 2)
      >>= λ b. if both then write_pts b dts 1 else some b

  unfoldable pub pes_header : ℕ → ℕ → ℕ → Bool → Option Buffer
  pes_header size pts dts is_video =
      header_with (is_video && not (dts == pts)) size pts dts is_video

  -- `WritePES(pid, data, pts, dts, isVideo)`; a panic and a lack of fuel are `none`.
  unfoldable pub write_pes :
      TsWriter → ℕ → List ℕ → ℕ → ℕ → Bool → Option (List (List ℕ) × TsWriter)
  write_pes w pid bytes pts dts is_video = pes_header (length bytes) pts dts is_video >>= λ header.
      write_fragments (length (header.content ++ bytes)) w pid is_video true
        (header.content ++ bytes)
