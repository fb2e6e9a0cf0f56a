-- ===== src/Rtmp/Chunk/Wide.antt =====
-- The chunk stream ids from 320 on, whose 3-byte basic header `writeBasicHeader` lays out with the
-- high byte first and `readBasicHeader` reads with the low byte first.
use zenlive.Common.{ℕ, ◌+◌, ◌-◌, ◌*◌, ◌/◌, ◌%◌, ◌<◌, ◌≤◌, ◌≡◌, ◌≢◌, false, List, ◌++◌, ltb, arith}
use zenlive.Rtmp.{Bytes}
use zenlive.Rtmp.Bytes.{byte, put_be16}
use zenlive.Rtmp.Chunk.Output.{basic_writes, flat}
use zenlive.Rtmp.Chunk.Reader.{ChunkStream, ok, read_byte, read_basic_header}
use zenlive.Rtmp.Chunk.Steps.{reader, read_full-append}

-- The id with the two bytes of its last 16 bits exchanged.
abbrev pub exchanged : ℕ → ℕ
exchanged cs_id = byte (cs_id - 64) * 256 + byte ((cs_id - 64) / 256) + 64

-- The id of a 3-byte basic header, from 320 to 65599, is read back with its two bytes exchanged,
-- and so is another one whenever these bytes differ.
pub read_basic_header-wide :
    (rest : Bytes) (c : ℕ) (m : List (ℕ × ChunkStream)) (format cs_id : ℕ)
    → format < 4
    → 320 ≤ cs_id
    → cs_id < 65600
    → (read_basic_header (reader (flat (basic_writes format cs_id) ++ rest) c m)
        ≡ (ok (exchanged cs_id, format), reader rest c m))
      × (byte (cs_id - 64) ≢ (cs_id - 64) / 256 → exchanged cs_id ≢ cs_id)
unfolding read_basic_header basic_writes read_byte
read_basic_header-wide rest c m format cs_id f l h =
    let n1 : ltb cs_id 64 ≡ false = ground arith in
    let n2 : ltb cs_id 320 ≡ false = ground arith in
    let e : (byte (format * 64) + 1) % 64 ≡ 1 = omega arith in
    let g : (byte (format * 64) + 1) / 64 % 4 ≡ format = omega arith in
    (
      rw (n1, n2, e, g, read_full-append rest c m (put_be16 (cs_id - 64))),
      λ d k. d (omega (arith, k)),
    )
