-- ===== src/Rtmp/Chunk/RoundTrip.antt =====
-- `ReadMessage` after `WriteMessage`.
use mathlib.Core.List.{append_assoc}
use zenlive.Common.{
  ℕ, zero, suc, ◌<◌, ◌≤◌, ◌≡◌, refl, ◌∙◌, inl, inr, Bool, true, false, List, [], ◌∷◌, ◌++◌, Option,
  none, some, length, take, drop, length-append, take-append-drop, length-take, length-drop,
  take_all, drop_all, lookup, insert, insert-insert, lookup-insert_self, nat_key, Option-cases,
  arith, dec_le,
}
use zenlive.Rtmp.{Bytes, Message, ChunkHeader, IsSendable}
use zenlive.Rtmp.Chunk.Output.{
  basic_writes, header_writes, flat, flat-append, split, split_more, split_nil, chunk_writes,
  message_writes,
}
use zenlive.Rtmp.Chunk.Reader.{
  ChunkStream, ok, fresh_stream, get_stream, store, read_data, read_chunk, read_loop, read_message,
}
use zenlive.Rtmp.Chunk.Steps.{reader, read_basic_header-writes, told, read_message_header-writes}
use zenlive.Rtmp.Chunk.Assembly.{idle, HasReceived, read_data_last, read_data_more, read_loop-tail}

module _ (c : ℕ) (msg : Message) (pos : 0 < c) where
  -- A message's chunks have its payload's bytes at least, so the reader's fuel is enough.
  length-le-writes :
      (fuel : ℕ) (first : Bool) (q : Bytes)
      → length q ≤ fuel
      → length q ≤ length (flat (chunk_writes msg first (split fuel c q)))
  unfolding chunk_writes
  length-le-writes fuel first [] e = omega arith
  length-le-writes zero first (x ∷ q) e = absurd (omega arith)
  length-le-writes (suc fuel) true (x ∷ q) e =
      let xs = x ∷ q in
      rw
        (
          split_more fuel c xs (omega arith),
          flat-append,
          flat-append,
          length-append,
          length-append,
          length-append,
        )
        (omega (
          arith,
          length-le-writes fuel false (drop c xs) (omega (arith, length-drop c xs)),
          length-take c xs,
          length-drop c xs,
        ))
  length-le-writes (suc fuel) false (x ∷ q) e =
      let xs = x ∷ q in
      rw (split_more fuel c xs (omega arith), flat-append, length-append, length-append)
        (omega (
          arith,
          length-le-writes fuel false (drop c xs) (omega (arith, length-drop c xs)),
          length-take c xs,
          length-drop c xs,
        ))

-- The stream of a map, or the new one that the reader makes.
abbrev pub stream_or_new : ℕ → Option ChunkStream → ChunkStream
stream_or_new cs_id none = fresh_stream cs_id
stream_or_new cs_id (some s) = s

abbrev pub stream_of : ℕ → List (ℕ × ChunkStream) → ChunkStream
stream_of cs_id m = stream_or_new cs_id (lookup cs_id m)

get_stream_any :
    (r : Bytes) (c : ℕ) (m : List (ℕ × ChunkStream)) (cs_id : ℕ)
    → (m' : List (ℕ × ChunkStream)) × (get_stream cs_id (reader r c m)
        ≡ (ok (stream_of cs_id m), reader r c m'))
      × ((s : ChunkStream) → insert cs_id s m' ≡ insert cs_id s m)
unfolding get_stream store
get_stream_any r c m cs_id = elim (Option-cases (lookup cs_id m)) [
  | inl new ↦
      (insert cs_id (fresh_stream cs_id) m, rw (new, get_stream), λ s. insert-insert cs_id _ s m)
  | inr (s, old) ↦ (m, rw (old, get_stream), λ s. refl)
]

-- No message is under way on the stream.
pub record IsIdle (s : ChunkStream) : Type 0 where
  pub size : s.received_size ≡ 0
  pub message : s.message ≡ none

-- The header of the message's chunk stream, when the message has been told.
abbrev pub told_header : List (ℕ × ChunkStream) → Message → ChunkHeader
told_header m msg = told (stream_of msg.chunk_stream_id m).header msg

module _ (c : ℕ) (m : List (ℕ × ChunkStream)) (msg : Message) (low : 2 ≤ msg.chunk_stream_id)
    (high : msg.chunk_stream_id < 320) (pos : 0 < c) (v : IsSendable msg) where
  abbrev told_stream : ChunkStream
  told_stream = record (stream_of msg.chunk_stream_id m) { header = told_header m msg }

  read_first_chunk :
      (r : Bytes)
      → read_chunk (
          reader (flat (basic_writes 0 msg.chunk_stream_id) ++ (flat (header_writes msg) ++ r)) c m)
        ≡ read_data msg.chunk_stream_id told_stream
            (reader r c (insert msg.chunk_stream_id told_stream m))
  unfolding read_chunk
  read_first_chunk r =
      let (m', found, same) =
        get_stream_any (flat (header_writes msg) ++ r) c m msg.chunk_stream_id in
      rw (
        read_basic_header-writes _ c m 0 msg.chunk_stream_id (omega arith) low high,
        found,
        read_message_header-writes r c m' msg.chunk_stream_id (stream_of msg.chunk_stream_id m) msg
            v,
        same,
      )

  enough_fuel :
      (x y z r : Bytes) (fuel : ℕ) (q : Bytes)
      → length q ≤ fuel
      → length q ≤ length (x ++ (y ++ (z ++ (flat (chunk_writes msg false (split fuel c q)) ++ r))))
  enough_fuel x y z r fuel q e =
      rw (length-append, length-append, length-append, length-append)
        (omega (arith, length-le-writes c msg pos fuel false q e))

  -- A reader at the first byte of a message that a writer with the same positive chunk size has
  -- written, where the message is sendable and not empty, has a chunk stream id from 2 to 319, and
  -- the reader is between messages of that chunk stream, returns that message, and stands behind
  -- it with the stream between messages again.
  pub read_message-writes :
      (rest : Bytes)
      → IsIdle (stream_of msg.chunk_stream_id m)
      → 0 < length msg.payload
      → read_message (reader (flat (message_writes c msg) ++ rest) c m)
        ≡ (ok msg, reader rest c (insert msg.chunk_stream_id (idle (told_header m msg)) m))
  unfolding read_message read_loop chunk_writes
  read_message-writes rest i l =
      let q = msg.payload in
      let w : HasReceived told_stream msg [] = record {
        size = i.size;
        total = refl;
        begun = rw i.message;
      } in
      rw
        (
          split_more (length msg.payload) c q l,
          flat-append,
          flat-append,
          append_assoc,
          append_assoc,
          append_assoc,
          read_first_chunk,
        )
        (elim (dec_le (length q) c) [
          | yes last ↦ rw (
            drop_all c q last,
            split_nil (length q) c,
            take_all c q last,
            read_data_last rest c _ told_stream msg [] q w v.payload_u24 refl last,
            insert-insert,
          )
          | no more ↦
              rw (read_data_more _ c _ told_stream msg [] q w v.payload_u24 refl (omega arith)) (
                read_loop-tail rest c msg (told_header m msg) low high pos v.payload_u24 refl
                  (length q) _ (take c q) (drop c q) _ (take-append-drop c q)
                  (omega (arith, length-drop c q)) (omega (arith, length-drop c q))
                  (enough_fuel (flat (basic_writes 0 msg.chunk_stream_id))
                    (flat (header_writes msg)) (take c q) rest (length q) (drop c q)
                    (omega (arith, length-drop c q)))
                  (lookup-insert_self _ _ _)
                ∙ rw (insert-insert, insert-insert))
        ])
