-- ===== src/Rtmp/Chunk/Assembly.antt =====
-- How `ReadMessage` puts a message of chunk.go together from the chunks after its headers.
use mathlib.Core.List.{append_assoc}
use zenlive.Common.{
  ℕ, zero, suc, ◌+◌, ◌-◌, ◌%◌, ◌^◌, ◌<◌, ◌≤◌, ◌≡◌, refl, sym, ◌∙◌, ap, true, false, List, ◌++◌,
  none, some, ltb, leb, if◌then◌else◌, length, take, drop, length-append, take-append-drop,
  length-take, length-drop, take_all, drop_all, lookup, insert, insert-insert, lookup-insert_self,
  nat_key, arith, dec_le,
}
use zenlive.Rtmp.{Bytes, Message, ChunkHeader}
use zenlive.Rtmp.Chunk.Output.{
  basic_writes, flat, flat-append, split, split_more, split_nil, chunk_writes,
}
use zenlive.Rtmp.Chunk.Reader.{
  ChunkStream, ok, read_message_header, get_stream, store, chunk_length, message_of, deliver,
  read_data, read_chunk, read_loop,
}
use zenlive.Rtmp.Chunk.Steps.{reader, read_full-append, read_basic_header-writes}

-- A stream between messages, and one that has the first part `p` of a message.
abbrev pub idle : ChunkHeader → ChunkStream
idle h = record { header = h; received_size = 0; message = none }

abbrev pub partial : ChunkHeader → Message → Bytes → ChunkStream
partial h msg p = record {
  header = h;
  received_size = length p;
  message = some (record msg { payload = p });
}

-- A stream in which the bytes `p` of `msg` have been received, `p` empty if none have.
pub record HasReceived (s : ChunkStream) (msg : Message) (p : Bytes) : Type 0 where
  pub size : s.received_size ≡ length p
  pub total : s.header.message_length ≡ length msg.payload
  pub begun : message_of msg.chunk_stream_id s ≡ record msg { payload = p }

module _ (rest : Bytes) (c : ℕ) (m : List (ℕ × ChunkStream)) (s : ChunkStream) (msg : Message)
    (p q : Bytes) (had : HasReceived s msg p) (fits : length msg.payload < 2 ^ 24) where
  deliver_last :
      length p + length q ≡ length msg.payload
      → deliver msg.chunk_stream_id s (length q) q (reader rest c m) ≡ (
        ok (some (record msg { payload = p ++ q })),
        reader rest c (insert msg.chunk_stream_id (idle s.header) m),
      )
  unfolding deliver store
  deliver_last e =
      let n : (length p + length q) % 2 ^ 32 ≡ length msg.payload = omega arith in
      let t : leb (length msg.payload) (length msg.payload) ≡ true = ground arith in
      rw (had.size, had.total, n, t, had.begun)

  deliver_more :
      length p + length q < length msg.payload
      → deliver msg.chunk_stream_id s (length q) q (reader rest c m)
        ≡ (ok none, reader rest c (insert msg.chunk_stream_id (partial s.header msg (p ++ q)) m))
  unfolding deliver store
  deliver_more e =
      let n : (length p + length q) % 2 ^ 32 ≡ length (p ++ q) = omega (arith, length-append p q) in
      let t : leb (length msg.payload) (length (p ++ q)) ≡ false =
        ground (arith, length-append p q) in
      rw (had.size, had.total, n, t, had.begun)

length-take_clip :
    (c : ℕ) (q : Bytes) → (if ltb c (length q) then c else length q) ≡ length (take c q)
length-take_clip c q = ground (arith, length-take c q)

-- One chunk's data: the last one completes the message, any other leaves it under way.
module _ (rest : Bytes) (c : ℕ) (m : List (ℕ × ChunkStream)) (s : ChunkStream) (msg : Message)
    (p q : Bytes) (had : HasReceived s msg p) (fits : length msg.payload < 2 ^ 24)
    (whole : p ++ q ≡ msg.payload) where
  sizes : length p + length q ≡ length msg.payload
  sizes = rw (← whole) (sym (length-append p q))

  chunk_length-left :
      (r : Bytes) → chunk_length s (reader r c m) ≡ (ok (length (take c q)), reader r c m)
  unfolding chunk_length
  chunk_length-left r =
      let n : (length msg.payload + 2 ^ 32 - length p) % 2 ^ 32 ≡ length q = omega (arith, sizes) in
      rw (had.size, had.total, n, length-take_clip c q)

  pub read_data_last :
      length q ≤ c
      → read_data msg.chunk_stream_id s (reader (q ++ rest) c m)
        ≡ (ok (some msg), reader rest c (insert msg.chunk_stream_id (idle s.header) m))
  unfolding read_data
  read_data_last e =
      rw (chunk_length-left, take_all c q e, read_full-append rest c m q)
        (rw whole at (deliver_last rest c m s msg p q had fits sizes))

  pub read_data_more :
      c < length q
      → read_data msg.chunk_stream_id s (reader (take c q ++ rest) c m) ≡ (
        ok none,
        reader rest c (insert msg.chunk_stream_id (partial s.header msg (p ++ take c q)) m),
      )
  unfolding read_data
  read_data_more e =
      rw (chunk_length-left, read_full-append rest c m (take c q))
        (deliver_more rest c m s msg p (take c q) had fits (omega (arith, sizes, length-take c q)))

partial-HasReceived :
    (h : ChunkHeader) (msg : Message) (p : Bytes)
    → h.message_length ≡ length msg.payload
    → HasReceived (partial h msg p) msg p
partial-HasReceived h msg p e = record { size = refl; total = e; begun = refl }

get_stream_known :
    (r : Bytes) (c : ℕ) (m : List (ℕ × ChunkStream)) (cs_id : ℕ) (s : ChunkStream)
    → lookup cs_id m ≡ some s
    → get_stream cs_id (reader r c m) ≡ (ok s, reader r c m)
unfolding get_stream
get_stream_known r c m cs_id s e = rw (e, get_stream)

-- The rounds after the first: the stream has `p`, and `q` is still to come in chunks of format 3.
module _ (rest : Bytes) (c : ℕ) (msg : Message) (h : ChunkHeader) (low : 2 ≤ msg.chunk_stream_id)
    (high : msg.chunk_stream_id < 320) (pos : 0 < c) (fits : length msg.payload < 2 ^ 24)
    (total : h.message_length ≡ length msg.payload) where
  read_next_chunk :
      (r p : Bytes) (m : List (ℕ × ChunkStream))
      → lookup msg.chunk_stream_id m ≡ some (partial h msg p)
      → read_chunk (reader (flat (basic_writes 3 msg.chunk_stream_id) ++ r) c m)
        ≡ read_data msg.chunk_stream_id (partial h msg p) (reader r c m)
  unfolding read_chunk read_message_header
  read_next_chunk r p m e = rw (
    read_basic_header-writes r c m 3 msg.chunk_stream_id (omega arith) low high,
    get_stream_known r c m msg.chunk_stream_id (partial h msg p) e,
  )

  pub read_loop-tail :
      (fuel n : ℕ) (p q : Bytes) (m : List (ℕ × ChunkStream))
      → p ++ q ≡ msg.payload
      → 0 < length q
      → length q ≤ fuel
      → length q ≤ n
      → lookup msg.chunk_stream_id m ≡ some (partial h msg p)
      → read_loop n (reader (flat (chunk_writes msg false (split fuel c q)) ++ rest) c m)
        ≡ (ok msg, reader rest c (insert msg.chunk_stream_id (idle h) m))
  unfolding read_loop chunk_writes
  read_loop-tail fuel zero p q m w l f k e = absurd (omega arith)
  read_loop-tail zero (suc n) p q m w l f k e = absurd (omega arith)
  read_loop-tail (suc fuel) (suc n) p q m w l f k e =
      rw (split_more fuel c q l, flat-append, append_assoc, append_assoc, read_next_chunk _ p m e)
        (elim (dec_le (length q) c) [
          | yes last ↦ rw (
            drop_all c q last,
            split_nil fuel c,
            take_all c q last,
            read_data_last rest c m (partial h msg p) msg p q (partial-HasReceived h msg p total)
                fits w last,
          )
          | no more ↦
              rw
                (read_data_more _ c m (partial h msg p) msg p q (partial-HasReceived h msg p total)
                  fits w (omega arith))
                (read_loop-tail fuel n (p ++ take c q) (drop c q) _
                    (append_assoc p (take c q) (drop c q)
                      ∙ ap (λ x. p ++ x) (take-append-drop c q)
                      ∙ w)
                    (omega (arith, length-drop c q)) (omega (arith, length-drop c q))
                    (omega (arith, length-drop c q)) (lookup-insert_self _ _ _)
                  ∙ rw insert-insert)
        ])
