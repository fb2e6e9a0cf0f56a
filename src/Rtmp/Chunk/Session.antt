-- ===== src/Rtmp/Chunk/Session.antt =====
-- A whole conversation over chunk.go: messages written one after the other, and read again.
use mathlib.Core.List.{append_assoc, append-nil}
use zenlive.Common.{
  ℕ, zero, suc, ◌^◌, ◌<◌, ◌≤◌, ◌≡◌, refl, List, [], ◌∷◌, ◌++◌, Option, length, All, AllEntries,
  insert-AllEntries, lookup-AllEntries, nat_key, lookup, Option-cases, inl, inr, arith,
}
use zenlive.Rtmp.{Bytes, Message, IsSendable}
use zenlive.Rtmp.Chunk.Output.{
  message_writes, flat, write_message-writes, write_all-buffer, buffer_write,
}
use zenlive.Rtmp.Chunk.Reader.{
  ChunkReader, ChunkStream, Result, ok, err, M, read_message, new_chunk_reader, set_chunk_size,
  ◌>>=◌, and_then, pure,
}
use zenlive.Rtmp.Chunk.RoundTrip.{IsIdle, stream_of, read_message-writes}
use zenlive.Rtmp.Chunk.Steps.{reader}
use zenlive.Rtmp.Chunk.Writer.{Outcome, done, continue, write_message}

-- Calls of `WriteMessage` one after the other, up to the first error.
unfoldable pub write_messages :
    {W E : Type 0} → (Bytes → W → Option E × W) → ℕ → List Message → W → Outcome E × W
write_messages write size [] w = (done, w)
write_messages write size (msg ∷ msgs) w =
    continue (write_message write size msg w) (write_messages write size msgs)

-- As many calls of `ReadMessage`.
unfoldable pub read_messages : ℕ → M (List Message)
read_messages zero = pure []
read_messages (suc n) = do msg ← read_message; msgs ← read_messages n; pure (msg ∷ msgs)

-- The messages that the chunk layer carries: chunk streams with a short basic header, and a
-- payload that is not empty.
pub record IsCarried (msg : Message) : Type 0 where
  pub sendable : IsSendable msg
  pub low : 2 ≤ msg.chunk_stream_id
  pub high : msg.chunk_stream_id < 320
  pub filled : 0 < length msg.payload

-- The bytes of the messages.
abbrev pub wire : ℕ → List Message → Bytes
wire size [] = []
wire size (msg ∷ msgs) = flat (message_writes size msg) ++ wire size msgs

stream_of-IsIdle :
    (id : ℕ) (m : List (ℕ × ChunkStream)) → AllEntries (λ _ s. IsIdle s) m → IsIdle (stream_of id m)
stream_of-IsIdle id m h = elim (Option-cases (lookup id m)) [
  | inl e ↦ rw e (record { size = refl; message = refl })
  | inr (s, e) ↦ rw e (lookup-AllEntries (λ _ s. IsIdle s) id s m h e)
]

and_then-pure :
    {A B : Type 0} (x : Result A × ChunkReader) (f : A → B) (a : A)
    → x.0 ≡ ok a
    → (and_then x (λ b. pure (f b))).0 ≡ ok (f a)
and_then-pure (ok b, s) f a e = cc
and_then-pure (err e', s) f a e = cc

module _ (size : ℕ) (pos : 0 < size) where
  write_messages-wire :
      {E : Type 0} (msgs : List Message) (w : Bytes)
      → All IsCarried msgs
      → write_messages (buffer_write {E = E}) size msgs w ≡ (done, w ++ wire size msgs)
  unfolding write_messages
  write_messages-wire [] w h = rw append-nil
  write_messages-wire {E} (msg ∷ msgs) w h =
      let fits : length msg.payload < 2 ^ 32 = omega (arith, h.0.sendable.payload_u24) in
      rw (
        write_message-writes buffer_write size msg w pos fits,
        write_all-buffer,
        write_messages-wire {E = E} msgs (w ++ flat (message_writes size msg)) h.1,
        append_assoc,
      )

  read_messages-wire :
      (msgs : List Message) (rest : Bytes) (m : List (ℕ × ChunkStream))
      → All IsCarried msgs
      → AllEntries (λ _ s. IsIdle s) m
      → (read_messages (length msgs) (reader (wire size msgs ++ rest) size m)).0 ≡ ok msgs
  unfolding read_messages
  read_messages-wire [] rest m h i = refl
  read_messages-wire (msg ∷ msgs) rest m h i =
      let id = msg.chunk_stream_id in
      rw
        (
          append_assoc,
          read_message-writes size m msg h.0.low h.0.high pos h.0.sendable (wire size msgs ++ rest)
              (stream_of-IsIdle id m i) h.0.filled,
        )
        (and_then-pure _ (λ ms. msg ∷ ms) msgs
          (read_messages-wire msgs rest _ h.1 (
            insert-AllEntries (λ _ s. IsIdle s) id _ m (record { size = refl; message = refl }) i)))

  -- Messages that the chunk layer carries, written one after the other to a buffer, are all
  -- written, and a new reader of that buffer with the writer's positive chunk size returns them
  -- unchanged and in order, whatever follows in the buffer.
  pub read_messages-write_messages :
      {E : Type 0} (msgs : List Message) (rest : Bytes)
      → All IsCarried msgs
      → let (outcome, out) = write_messages (buffer_write {E = E}) size msgs [] in
        (outcome ≡ done)
        × ((read_messages (length msgs) (set_chunk_size size (new_chunk_reader (out ++ rest)))).0
            ≡ ok msgs)
  unfolding set_chunk_size new_chunk_reader
  read_messages-write_messages {E} msgs rest h =
      rw (write_messages-wire {E = E} msgs [] h) (refl, read_messages-wire msgs rest [] h tt)
