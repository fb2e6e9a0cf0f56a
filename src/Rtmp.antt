-- ===== src/Rtmp.antt =====
-- The RTMP server's wire formats, pkg/streaming/rtmp: the data of types.go that the chunk layer and
-- the AMF0 codec share.
pub mod Bytes
pub mod Chunk
pub mod Amf
mod Tests
use zenlive.Common.{ℕ, ◌<◌, ◌≤◌, ◌^◌, Bool, List, length}

-- A byte slice is a list of numbers below 256.
abbrev pub Bytes : Type 0
Bytes = List ℕ

pub record Message : Type 0 where
  pub chunk_stream_id : ℕ
  pub timestamp : ℕ
  pub message_type_id : ℕ
  pub message_stream_id : ℕ
  pub payload : Bytes

pub record ChunkHeader : Type 0 where
  pub format : ℕ
  pub chunk_stream_id : ℕ
  pub timestamp : ℕ
  pub message_length : ℕ
  pub message_type_id : ℕ
  pub message_stream_id : ℕ
  pub extended_timestamp : Bool

abbrev pub chunk_format_0 : ℕ
chunk_format_0 = 0

abbrev pub chunk_format_3 : ℕ
chunk_format_3 = 3

abbrev pub default_chunk_size : ℕ
default_chunk_size = 128

-- The fields have the widths that the Go types give them, and the payload fits the 24-bit length.
pub record IsSendable (msg : Message) : Type 0 where
  pub timestamp_u32 : msg.timestamp < 2 ^ 32
  pub type_u8 : msg.message_type_id < 256
  pub stream_u32 : msg.message_stream_id < 2 ^ 32
  pub payload_u24 : length msg.payload < 2 ^ 24
