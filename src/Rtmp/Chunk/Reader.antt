-- ===== src/Rtmp/Chunk/Reader.antt =====
-- `ChunkReader` of chunk.go. The connection is the list of bytes that are still to come; an error
-- leaves the reader as the code leaves it, with what was consumed gone.
use zenlive.Common.{
  ℕ, zero, suc, ◌+◌, ◌-◌, ◌*◌, ◌/◌, ◌%◌, ◌^◌, true, false, List, [], ◌∷◌, ◌++◌, Option, none, some,
  ltb, leb, ◌==◌, if◌then◌else◌, length, take, drop, get_or, lookup, insert, nat_key,
}
use zenlive.Rtmp.{Bytes, Message, ChunkHeader, default_chunk_size}
use zenlive.Rtmp.Bytes.{be24, be32, le32}

pub record ChunkStream : Type 0 where
  pub header : ChunkHeader
  pub received_size : ℕ
  pub message : Option Message

pub record ChunkReader : Type 0 where
  pub r : Bytes
  pub chunk_size : ℕ
  pub streams : List (ℕ × ChunkStream)

-- `io.EOF` and `io.ErrUnexpectedEOF`. `out_of_fuel` is no Go error: the model's loop stopped.
pub data Error : Type 0 where
  eof unexpected_eof out_of_fuel : Error

pub data Result {ℓ} (A : Type ℓ) : Type ℓ where
  ok : A → Result A
  err : Error → Result A

abbrev pub M : Type 0 → Type 0
M A = ChunkReader → Result A × ChunkReader

abbrev pub and_then : {A B : Type 0} → Result A × ChunkReader → (A → M B) → Result B × ChunkReader
and_then (ok a, s) f = f a s
and_then (err e, s) f = (err e, s)

infixl 5 ◌>>=◌ ◌>>◌
abbrev pub ◌>>=◌ : {A B : Type 0} → M A → (A → M B) → M B
◌>>=◌ m f s = and_then (m s) f

abbrev pub ◌>>◌ : {A B : Type 0} → M A → M B → M B
◌>>◌ m k = m >>= λ _. k

abbrev pub pure : {A : Type 0} → A → M A
pure a s = (ok a, s)

unfoldable pub new_chunk_reader : Bytes → ChunkReader
new_chunk_reader r = record { r = r; chunk_size = default_chunk_size; streams = [] }

unfoldable pub set_chunk_size : ℕ → ChunkReader → ChunkReader
set_chunk_size size cr = record cr { chunk_size = size }

-- `cr.r.ReadByte()`
unfoldable pub read_byte : M ℕ
read_byte s = elim s.r [ [] ↦ (err Error.eof, s) | b ∷ rest ↦ (ok b, record s { r = rest }) ]

-- `io.ReadFull(cr.r, buf)` with `len(buf) == n`: a short read consumes what there is.
unfoldable pub read_full : ℕ → M Bytes
read_full n s =
    if leb n (length s.r)
    then (ok (take n s.r), record s { r = drop n s.r })
    else (err (if length s.r == 0 then Error.eof else Error.unexpected_eof), record s { r = [] })

-- `stream` is a pointer into the map: a change to it is a change to the map.
unfoldable pub store : ℕ → ChunkStream → M (Unit {0})
store cs_id stream s = (ok tt, record s { streams = insert cs_id stream s.streams })

unfoldable pub read_basic_header : M (ℕ × ℕ)
read_basic_header = do
  first_byte ← read_byte
  let format = first_byte / 64 % 4
  let cs_id = first_byte % 64
  if cs_id == 0
      then (do second_byte ← read_byte; pure (second_byte + 64, format))
      else if cs_id == 1
      then (do buf ← read_full 2; pure (get_or buf 1 0 * 256 + get_or buf 0 0 + 64, format))
      else pure (cs_id, format)

-- The stream's header as format 0 reads it from its 11 bytes, the extended timestamp apart.
unfoldable pub header_0 : ChunkHeader → Bytes → ChunkHeader
header_0 h buf = record h {
  timestamp = be24 (get_or buf 0 0) (get_or buf 1 0) (get_or buf 2 0);
  message_length = be24 (get_or buf 3 0) (get_or buf 4 0) (get_or buf 5 0);
  message_type_id = get_or buf 6 0;
  message_stream_id = le32 (get_or buf 7 0) (get_or buf 8 0) (get_or buf 9 0) (get_or buf 10 0);
}

unfoldable pub read_format_0 : ℕ → ChunkStream → M ChunkStream
read_format_0 cs_id stream = do
  buf ← read_full 11
  let stream' = record stream { header = header_0 stream.header buf }
  store cs_id stream'
  if stream'.header.timestamp == 0xFFFFFF
      then (do
        ext ← read_full 4
        let ext_timestamp = be32 (get_or ext 0 0) (get_or ext 1 0) (get_or ext 2 0) (get_or ext 3 0)
        let extended = record stream' {
          header = record stream'.header { timestamp = ext_timestamp; extended_timestamp = true };
        }
        store cs_id extended
        pure extended)
      else pure stream'

-- `header.Timestamp += timestampDelta` wraps at 32 bits.
unfoldable pub read_format_1 : ℕ → ChunkStream → M ChunkStream
read_format_1 cs_id stream = do
  buf ← read_full 7
  let delta = be24 (get_or buf 0 0) (get_or buf 1 0) (get_or buf 2 0)
  let stream' = record stream {
    header = record stream.header {
      timestamp = (stream.header.timestamp + delta) % 2 ^ 32;
      message_length = be24 (get_or buf 3 0) (get_or buf 4 0) (get_or buf 5 0);
      message_type_id = get_or buf 6 0;
    };
  }
  store cs_id stream'
  pure stream'

unfoldable pub read_format_2 : ℕ → ChunkStream → M ChunkStream
read_format_2 cs_id stream = do
  buf ← read_full 3
  let delta = be24 (get_or buf 0 0) (get_or buf 1 0) (get_or buf 2 0)
  let stream' = record stream {
    header = record stream.header { timestamp = (stream.header.timestamp + delta) % 2 ^ 32 };
  }
  store cs_id stream'
  pure stream'

-- Format 3 has no header: the previous values stay.
unfoldable pub read_message_header : ℕ → ChunkStream → ℕ → M ChunkStream
read_message_header cs_id stream format =
    if format == 0
    then read_format_0 cs_id stream
    else if format == 1
    then read_format_1 cs_id stream
    else if format == 2
    then read_format_2 cs_id stream
    else pure stream

-- `&ChunkStream{header: &ChunkHeader{ChunkStreamID: csID}}`
abbrev pub fresh_stream : ℕ → ChunkStream
fresh_stream cs_id = record {
  header = record {
    format = 0;
    chunk_stream_id = cs_id;
    timestamp = 0;
    message_length = 0;
    message_type_id = 0;
    message_stream_id = 0;
    extended_timestamp = false;
  };
  received_size = 0;
  message = none;
}

-- The stream of the map, made and stored where there is none.
unfoldable pub get_stream : ℕ → M ChunkStream
get_stream cs_id s = elim (lookup cs_id s.streams) [
  | some stream ↦ (ok stream, s)
  | none ↦ (do store cs_id (fresh_stream cs_id); pure (fresh_stream cs_id)) s
]

-- How much of the message this chunk holds. The difference is one of `uint32`.
unfoldable pub chunk_length : ChunkStream → M ℕ
chunk_length stream s =
    let to_read = (stream.header.message_length + 2 ^ 32 - stream.received_size) % 2 ^ 32 in
    (ok (if ltb s.chunk_size to_read then s.chunk_size else to_read), s)

-- The message under way, begun from the header where there is none.
abbrev pub message_of : ℕ → ChunkStream → Message
message_of cs_id stream = elim stream.message [
  | some msg ↦ msg
  | none ↦ record {
    chunk_stream_id = cs_id;
    timestamp = stream.header.timestamp;
    message_type_id = stream.header.message_type_id;
    message_stream_id = stream.header.message_stream_id;
    payload = [];
  }
]

-- The chunk's data joins the message; a message that is complete is handed over and forgotten.
unfoldable pub deliver : ℕ → ChunkStream → ℕ → Bytes → M (Option Message)
deliver cs_id stream to_read chunk_data =
    let begun = message_of cs_id stream in
    let msg : Message = record begun { payload = begun.payload ++ chunk_data } in
    let received = (stream.received_size + to_read) % 2 ^ 32 in
    if leb stream.header.message_length received
    then (do store cs_id (record stream { received_size = 0; message = none }); pure (some msg))
    else (do
      store cs_id (record stream { received_size = received; message = some msg })
      pure none)

-- The chunk's data, after its headers.
unfoldable pub read_data : ℕ → ChunkStream → M (Option Message)
read_data cs_id stream = do
  to_read ← chunk_length stream
  chunk_data ← read_full to_read
  deliver cs_id stream to_read chunk_data

-- One round of the loop in `ReadMessage`: one chunk.
unfoldable pub read_chunk : M (Option Message)
read_chunk = do
  (cs_id, format) ← read_basic_header
  stream ← get_stream cs_id
  stream' ← read_message_header cs_id stream format
  read_data cs_id stream'

-- After a round: return, go round again, or fail.
abbrev pub next_round :
    M Message → Result (Option Message) × ChunkReader → Result Message × ChunkReader
next_round again (ok (some msg), s) = (ok msg, s)
next_round again (ok none, s) = again s
next_round again (err e, s) = (err e, s)

unfoldable pub read_loop : ℕ → M Message
read_loop zero s = (err Error.out_of_fuel, s)
read_loop (suc fuel) s = next_round (read_loop fuel) (read_chunk s)

-- `ReadMessage`. Each round consumes a byte at least, so the bytes to come bound the rounds.
unfoldable pub read_message : M Message
read_message s = read_loop (suc (length s.r)) s
