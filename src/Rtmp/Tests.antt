-- ===== src/Rtmp/Tests.antt =====
-- Runs of the chunk layer of chunk.go on small messages.
use zenlive.Common.{ℕ, ◌≡◌, refl, ◌⊎◌, [], ◌∷◌, ◌++◌, arith, nat_key}
use zenlive.Rtmp.{Message, IsSendable}
use zenlive.Rtmp.Chunk.Output.{buffer_write, message_writes, write_all, write_message-writes}
use zenlive.Rtmp.Chunk.Reader.{ok, err, Error, read_message, new_chunk_reader, set_chunk_size}
use zenlive.Rtmp.Chunk.Session.{
  IsCarried, write_messages, read_messages, read_messages-write_messages,
}
use zenlive.Rtmp.Chunk.Steps.{reader}
use zenlive.Rtmp.Chunk.Termination.{read_message_terminates}
use zenlive.Rtmp.Chunk.Writer
use zenlive.Rtmp.Chunk.Writer.{done, write_message, new_chunk_writer, through}

-- Five bytes, which make three chunks of at most two bytes.
abbrev greeting : Message
greeting = record {
  chunk_stream_id = 3;
  timestamp = 40;
  message_type_id = 20;
  message_stream_id = 1;
  payload = 104 ∷ 101 ∷ 108 ∷ 108 ∷ 111 ∷ [];
}

-- A long basic header and an extended timestamp.
abbrev late : Message
late = record {
  chunk_stream_id = 70;
  timestamp = 20000000;
  message_type_id = 9;
  message_stream_id = 1;
  payload = 1 ∷ 2 ∷ 3 ∷ [];
}

greeting-IsSendable : IsSendable greeting
greeting-IsSendable = record {
  timestamp_u32 = omega arith;
  type_u8 = omega arith;
  stream_u32 = omega arith;
  payload_u24 = omega arith;
}

greeting-IsCarried : IsCarried greeting
greeting-IsCarried = record {
  sendable = greeting-IsSendable;
  low = omega arith;
  high = omega arith;
  filled = omega arith;
}

late-IsCarried : IsCarried late
late-IsCarried = record {
  sendable = record {
    timestamp_u32 = omega arith;
    type_u8 = omega arith;
    stream_u32 = omega arith;
    payload_u24 = omega arith;
  };
  low = omega arith;
  high = omega arith;
  filled = omega arith;
}

write_message-writes_example :
    write_message (buffer_write {E = ℕ}) 2 greeting []
    ≡ write_all buffer_write (message_writes 2 greeting) []
write_message-writes_example =
    write_message-writes buffer_write 2 greeting [] (omega arith) (omega arith)

read_messages-write_messages_example :
    let (outcome, out) =
      write_messages (buffer_write {E = ℕ}) 2 (greeting ∷ late ∷ greeting ∷ []) [] in
    (outcome ≡ done)
    × ((read_messages 3 (set_chunk_size 2 (new_chunk_reader (out ++ [])))).0
        ≡ ok (greeting ∷ late ∷ greeting ∷ []))
read_messages-write_messages_example =
    read_messages-write_messages 2 (omega arith) {E = ℕ} (greeting ∷ late ∷ greeting ∷ []) []
      (greeting-IsCarried, (late-IsCarried, (greeting-IsCarried, tt)))

read_message_terminates_example :
    ((msg : Message) × ((read_message (reader (3 ∷ 0 ∷ []) 128 [])).0 ≡ ok msg))
    ⊎ ((read_message (reader (3 ∷ 0 ∷ []) 128 [])).0 ≡ err Error.eof)
    ⊎ ((read_message (reader (3 ∷ 0 ∷ []) 128 [])).0 ≡ err Error.unexpected_eof)
read_message_terminates_example = read_message_terminates (reader (3 ∷ 0 ∷ []) 128 [])

-- A writer whose chunk size is set writes its messages with it.
small_chunks :
    (through
      (λ size. write_message (buffer_write {E = ℕ}) size greeting)
      (Writer.set_chunk_size 2 (new_chunk_writer []))).1.w
    ≡ (write_message (buffer_write {E = ℕ}) 2 greeting []).1
unfolding new_chunk_writer Writer.set_chunk_size through
small_chunks = refl
