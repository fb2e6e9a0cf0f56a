-- ===== src/Rtmp/Chunk/Writer.antt =====
-- `ChunkWriter` of chunk.go over any `io.Writer`: a type of its states and its `Write`.
use zenlive.Common.{
  ℕ, zero, suc, ◌+◌, ◌-◌, ◌*◌, ◌%◌, ◌^◌, Bool, true, false, [], ◌∷◌, ◌++◌, Option, none, some, ltb,
  leb, if◌then◌else◌, length, take, drop,
}
use zenlive.Rtmp.{Bytes, Message, default_chunk_size}
use zenlive.Rtmp.Bytes.{byte, put_be16, put_be24, put_be32, put_le32}

-- How an operation ends: `out_of_fuel` is no Go error, the model's loop stopped.
pub data Outcome (E : Type 0) : Type 0 where
  done out_of_fuel : Outcome E
  failed : E → Outcome E

module _ {W E : Type 0} where
  abbrev pub continue : Outcome E × W → (W → Outcome E × W) → Outcome E × W
  continue (done, w) k = k w
  continue (out_of_fuel, w) k = (out_of_fuel, w)
  continue (failed e, w) k = (failed e, w)

  infixl 5 ◌>>◌
  abbrev pub ◌>>◌ : (W → Outcome E × W) → (W → Outcome E × W) → W → Outcome E × W
  ◌>>◌ m k w = continue (m w) k

  -- The error of `Write`, if any, beside the writer's new state.
  abbrev pub from_write : Option E × W → Outcome E × W
  from_write (none, w) = (done, w)
  from_write (some e, w) = (failed e, w)

  abbrev pub succeed : W → Outcome E × W
  succeed w = (done, w)

-- The bytes that the next chunk takes of what is left.
abbrev pub clip : ℕ → ℕ → ℕ
clip chunk_size left = if ltb chunk_size left then chunk_size else left

-- The first bytes of a chunk, each `Write` with its bytes. Format 0 is the first chunk's.
module _ {W E : Type 0} (write : Bytes → W → Option E × W) where
  abbrev pub put : Bytes → W → Outcome E × W
  put bytes w = from_write (write bytes w)

  unfoldable pub write_basic_header : ℕ → Bool → W → Outcome E × W
  write_basic_header cs_id is_first =
      let format : ℕ = if is_first then 0 else 3 in
      if ltb cs_id 64
      then put ((byte (format * 64) + byte cs_id) ∷ [])
      else if ltb cs_id 320
      then (put (byte (format * 64) ∷ []) >> put (byte (cs_id - 64) ∷ []))
      else (put ((byte (format * 64) + 1) ∷ []) >> put (put_be16 (cs_id - 64)))

  -- The 11 bytes of a type 0 header, and the extended timestamp.
  unfoldable pub write_message_header : Message → W → Outcome E × W
  write_message_header msg =
      let timestamp = if leb 0xFFFFFF msg.timestamp then 0xFFFFFF else msg.timestamp in
      let msg_len = length msg.payload % 2 ^ 32 in
      put (
        put_be24 timestamp
        ++ (put_be24 msg_len ++ (byte msg.message_type_id ∷ put_le32 msg.message_stream_id)))
      >> (if leb 0xFFFFFF msg.timestamp then put (put_be32 msg.timestamp) else succeed)

  -- The loop of `WriteMessage`, from `offset` on.
  unfoldable pub write_loop : ℕ → ℕ → Message → ℕ → Bool → W → Outcome E × W
  write_loop zero chunk_size msg offset is_first w = (out_of_fuel, w)
  write_loop (suc fuel) chunk_size msg offset is_first w =
      let payload_len = length msg.payload % 2 ^ 32 in
      let left = payload_len - offset in
      let to_write = clip chunk_size left in
      let rest = write_loop fuel chunk_size msg (offset + to_write) false in
      let header = if is_first then write_message_header msg else succeed in
      if ltb offset payload_len
      then (write_basic_header msg.chunk_stream_id is_first
            >> header
            >> put (take to_write (drop offset msg.payload))
            >> rest)
          w
      else (done, w)

  -- `WriteMessage`. A positive chunk size takes a byte a round at least.
  unfoldable pub write_message : ℕ → Message → W → Outcome E × W
  write_message chunk_size msg = write_loop (suc (length msg.payload)) chunk_size msg 0 true

  abbrev pub control_message : ℕ → Bytes → Message
  control_message message_type payload = record {
    chunk_stream_id = 2;
    timestamp = 0;
    message_type_id = message_type;
    message_stream_id = 0;
    payload = payload;
  }

  unfoldable pub write_control_message : ℕ → ℕ → Bytes → W → Outcome E × W
  write_control_message chunk_size message_type payload =
      write_message chunk_size (control_message message_type payload)

  unfoldable pub write_set_chunk_size : ℕ → ℕ → W → Outcome E × W
  write_set_chunk_size chunk_size size = write_control_message chunk_size 1 (put_be32 size)

  unfoldable pub write_window_ack_size : ℕ → ℕ → W → Outcome E × W
  write_window_ack_size chunk_size size = write_control_message chunk_size 5 (put_be32 size)

  unfoldable pub write_set_peer_bandwidth : ℕ → ℕ → ℕ → W → Outcome E × W
  write_set_peer_bandwidth chunk_size size limit_type =
      write_control_message chunk_size 6 (put_be32 size ++ (limit_type ∷ []))

-- A `ChunkWriter` is the writer under it and the chunk size that its methods use.
pub record ChunkWriter (W : Type 0) : Type 0 where
  pub w : W
  pub chunk_size : ℕ

module _ {W : Type 0} where
  unfoldable pub new_chunk_writer : W → ChunkWriter W
  new_chunk_writer w = record { w = w; chunk_size = default_chunk_size }

  unfoldable pub set_chunk_size : ℕ → ChunkWriter W → ChunkWriter W
  set_chunk_size size cw = record cw { chunk_size = size }

  -- A method, given its chunk size, of a `ChunkWriter`.
  unfoldable pub through :
      {E : Type 0} → (ℕ → W → Outcome E × W) → ChunkWriter W → Outcome E × ChunkWriter W
  through method cw =
      let (outcome, w') = method cw.chunk_size cw.w in (outcome, record cw { w = w' })
