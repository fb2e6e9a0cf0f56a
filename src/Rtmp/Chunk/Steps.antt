-- ===== src/Rtmp/Chunk/Steps.antt =====
-- What each step of `ChunkReader` makes of bytes that a `ChunkWriter` wrote.
use zenlive.Common.{
  ℕ, ◌+◌, ◌-◌, ◌*◌, ◌/◌, ◌%◌, ◌^◌, ◌<◌, ◌≤◌, ◌≡◌, inl, inr, true, false, List, ◌++◌, ltb, leb, ◌||◌,
  ◌==◌, if◌then◌else◌, length, length-append, take-append, drop-append, insert, insert-insert,
  nat_key, lt→ltb, Bool-cases, arith,
}
use mathlib.Core.List.{append-nil, append_assoc}
use native.Mathlib.Nat.{mod-eq_of_lt}
use zenlive.Rtmp.{Bytes, Message, ChunkHeader, IsSendable}
use zenlive.Rtmp.Bytes.{be24-put, be32-put, le32-put, put_be32, byte}
use zenlive.Rtmp.Chunk.Output.{basic_writes, header_bytes, header_writes, flat}
use zenlive.Rtmp.Chunk.Reader.{
  ChunkReader, ChunkStream, ok, read_byte, read_full, read_basic_header, store, header_0,
  read_format_0, read_message_header,
}

abbrev pub reader : Bytes → ℕ → List (ℕ × ChunkStream) → ChunkReader
reader r c m = record { r = r; chunk_size = c; streams = m }

module _ (rest : Bytes) (c : ℕ) (m : List (ℕ × ChunkStream)) where
  pub read_full-append :
      (xs : Bytes) → read_full (length xs) (reader (xs ++ rest) c m) ≡ (ok xs, reader rest c m)
  unfolding read_full
  read_full-append xs =
      let h : leb (length xs) (length (xs ++ rest)) ≡ true =
        ground (arith, length-append xs rest) in
      rw (h, take-append xs rest, drop-append xs rest)

  -- The two short forms of the basic header are read back. The third is not: see `Wide`.
  pub read_basic_header-writes :
      (format cs_id : ℕ)
      → format < 4
      → 2 ≤ cs_id
      → cs_id < 320
      → read_basic_header (reader (flat (basic_writes format cs_id) ++ rest) c m)
        ≡ (ok (cs_id, format), reader rest c m)
  unfolding read_basic_header basic_writes read_byte
  read_basic_header-writes format cs_id f h l = elim (Bool-cases (ltb cs_id 64)) [
    | inl short ↦
        let low : cs_id < 64 = ground arith in
        let e : (byte (format * 64) + byte cs_id) % 64 ≡ cs_id = omega arith in
        let g : (byte (format * 64) + byte cs_id) / 64 % 4 ≡ format = omega arith in
        let n0 : (cs_id == 0) ≡ false = ground arith in
        let n1 : (cs_id == 1) ≡ false = ground arith in rw (short, e, g, n0, n1)
    | inr long ↦
        let high : 64 ≤ cs_id = ground arith in
        let e : byte (format * 64) % 64 ≡ 0 = omega arith in
        let g : byte (format * 64) / 64 % 4 ≡ format = omega arith in
        let k : byte (cs_id - 64) + 64 ≡ cs_id = omega arith in
        rw (long, lt→ltb cs_id 320 l, e, g, k)
  ]

-- The 24-bit timestamp of a header: the largest stands for an extended one.
abbrev short_timestamp : Message → ℕ
short_timestamp msg = if leb 0xFFFFFF msg.timestamp then 0xFFFFFF else msg.timestamp

abbrev short_header : ChunkHeader → Message → ChunkHeader
short_header h msg = record h {
  timestamp = short_timestamp msg;
  message_length = length msg.payload;
  message_type_id = msg.message_type_id;
  message_stream_id = msg.message_stream_id;
}

short_timestamp-lt : (msg : Message) → short_timestamp msg < 2 ^ 24
short_timestamp-lt msg = ground arith

header_0-bytes :
    (h : ChunkHeader) (msg : Message)
    → IsSendable msg
    → header_0 h (header_bytes msg) ≡ short_header h msg
unfolding header_0 header_bytes
header_0-bytes h msg v =
    let l : length msg.payload % 2 ^ 32 ≡ length msg.payload = omega arith in
    rw (
      l,
      be24-put (short_timestamp msg) (short_timestamp-lt msg),
      be24-put (length msg.payload) v.payload_u24,
      le32-put msg.message_stream_id v.stream_u32,
      mod-eq_of_lt v.type_u8,
    )

-- The stream's header once the first chunk's header is read.
abbrev pub told : ChunkHeader → Message → ChunkHeader
told h msg = record h {
  timestamp = msg.timestamp;
  message_length = length msg.payload;
  message_type_id = msg.message_type_id;
  message_stream_id = msg.message_stream_id;
  extended_timestamp = leb 0xFFFFFF msg.timestamp || h.extended_timestamp;
}

module _ (rest : Bytes) (c : ℕ) (m : List (ℕ × ChunkStream)) (cs_id : ℕ) (s : ChunkStream)
    (msg : Message) (v : IsSendable msg) where
  read_header_bytes :
      (after : Bytes)
      → read_full 11 (reader (header_bytes msg ++ after) c m)
        ≡ (ok (header_bytes msg), reader after c m)
  unfolding header_bytes
  read_header_bytes after = read_full-append after c m (header_bytes msg)

  pub read_message_header-writes :
      read_message_header cs_id s 0 (reader (flat (header_writes msg) ++ rest) c m) ≡ (
        ok (record s { header = told s.header msg }),
        reader rest c (insert cs_id (record s { header = told s.header msg }) m),
      )
  unfolding read_message_header read_format_0 header_writes store
  read_message_header-writes = elim (Bool-cases (leb 0xFFFFFF msg.timestamp)) [
    | inl long ↦ rw (
      long,
      append_assoc,
      read_header_bytes,
      header_0-bytes,
      long,
      read_full-append rest c _ (put_be32 msg.timestamp),
      be32-put msg.timestamp v.timestamp_u32,
      insert-insert,
    )
    | inr short ↦
        let n : (msg.timestamp == 0xFFFFFF) ≡ false = ground arith in
        rw (short, append-nil, read_header_bytes, header_0-bytes, short, n)
  ]
