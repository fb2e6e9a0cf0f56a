-- ===== src/Rtmp/Chunk/Termination.antt =====
-- `ReadMessage` of chunk.go ends on every input: each round of its loop consumes a byte.
use Prim.Native.Nat.{suc-le-suc}
use zenlive.Common.{
  ℕ, zero, suc, ◌+◌, ◌*◌, ◌/◌, get_or, ◌%◌, ◌<◌, ◌≤◌, ◌≡◌, ◌≢◌, ◌⊎◌, refl, inl, inr, Bool, true,
  false, List, [], ◌∷◌, Option, none, some, ◌==◌, if◌then◌else◌, length, length-drop, lookup,
  nat_key, Option-cases, arith,
}
use zenlive.Rtmp.{Bytes, Message}
use zenlive.Rtmp.Chunk.Steps.{reader}
use zenlive.Rtmp.Chunk.Reader.{
  ChunkReader, ChunkStream, Error, Result, ok, err, M, and_then, ◌>>=◌, pure, read_byte, read_full,
  store, read_basic_header, read_format_0, read_format_1, read_format_2, read_message_header,
  get_stream, chunk_length, deliver, read_data, read_chunk, next_round, read_loop, read_message,
}

-- An operation that consumes at most the bytes there are, and stops with a Go error if any.
abbrev IsSound : {A : Type 0} → ℕ → Result A × ChunkReader → Type 0
IsSound n x = (length x.1.r ≤ n) × (x.0 ≢ err Error.out_of_fuel)

record Consumes {A : Type 0} (m : M A) : Type 0 where
  at : (s : ChunkReader) → IsSound (length s.r) (m s)

and_then-IsSound :
    {A B : Type 0} (n : ℕ) (x : Result A × ChunkReader) (f : A → M B)
    → IsSound n x
    → ((a : A) → Consumes (f a))
    → IsSound n (and_then x f)
and_then-IsSound n (ok a, s) f h k = (omega (arith, (k a).at s), ((k a).at s).1)
and_then-IsSound n (err e, s) f h k = (h.0, λ q. h.1 (cc))

bind-Consumes :
    {A B : Type 0} (m : M A) (f : A → M B)
    → Consumes m
    → ((a : A) → Consumes (f a))
    → Consumes (m >>= f)
bind-Consumes m f h k = record { at = λ s. and_then-IsSound (length s.r) (m s) f (h.at s) k }

pure-Consumes : {A : Type 0} (a : A) → Consumes (pure a)
pure-Consumes a = record { at = λ s. (omega arith, λ e. cc) }

store-Consumes : (id : ℕ) (stream : ChunkStream) → Consumes (store id stream)
unfolding store
store-Consumes id stream = record { at = λ s. (omega arith, λ e. cc) }

read_byte-Consumes : Consumes read_byte
unfolding read_byte
read_byte-Consumes = record { at = λ s. ground arith }

read_full-Consumes : (n : ℕ) → Consumes (read_full n)
unfolding read_full
read_full-Consumes n = record { at = λ s. ground (arith, length-drop n s.r) }

if-Consumes :
    {A : Type 0} (b : Bool) (m k : M A) → Consumes m → Consumes k → Consumes (if b then m else k)
if-Consumes true m k h l = h
if-Consumes false m k h l = l

-- What follows the first byte of a basic header.
abbrev basic_rest : ℕ → M (ℕ × ℕ)
basic_rest b =
    if b % 64 == 0
    then (read_byte >>= λ b'. pure (b' + 64, b / 64 % 4))
    else if b % 64 == 1
    then (read_full 2 >>= λ buf. pure (get_or buf 1 0 * 256 + get_or buf 0 0 + 64, b / 64 % 4))
    else pure (b % 64, b / 64 % 4)

basic_rest-Consumes : (b : ℕ) → Consumes (basic_rest b)
basic_rest-Consumes b =
    if-Consumes (b % 64 == 0) _ _
      (bind-Consumes read_byte _ read_byte-Consumes λ b'. pure-Consumes _)
      (if-Consumes (b % 64 == 1) _ _
        (bind-Consumes (read_full 2) _ (read_full-Consumes 2) λ buf. pure-Consumes _)
        (pure-Consumes _))

read_basic_header-Consumes : Consumes read_basic_header
unfolding read_basic_header
read_basic_header-Consumes = bind-Consumes read_byte _ read_byte-Consumes basic_rest-Consumes

read_format_0-Consumes : (id : ℕ) (stream : ChunkStream) → Consumes (read_format_0 id stream)
unfolding read_format_0
read_format_0-Consumes id stream = bind-Consumes (read_full 11) _ (read_full-Consumes 11) λ buf.
    bind-Consumes (store id _) _ (store-Consumes id _) λ _.
      if-Consumes _ _ _
        (bind-Consumes (read_full 4) _ (read_full-Consumes 4)
          λ ext. bind-Consumes (store id _) _ (store-Consumes id _) λ _. pure-Consumes _)
        (pure-Consumes _)

read_format_1-Consumes : (id : ℕ) (stream : ChunkStream) → Consumes (read_format_1 id stream)
unfolding read_format_1
read_format_1-Consumes id stream =
    bind-Consumes (read_full 7) _ (read_full-Consumes 7)
      λ buf. bind-Consumes (store id _) _ (store-Consumes id _) λ _. pure-Consumes _

read_format_2-Consumes : (id : ℕ) (stream : ChunkStream) → Consumes (read_format_2 id stream)
unfolding read_format_2
read_format_2-Consumes id stream =
    bind-Consumes (read_full 3) _ (read_full-Consumes 3)
      λ buf. bind-Consumes (store id _) _ (store-Consumes id _) λ _. pure-Consumes _

read_message_header-Consumes :
    (id : ℕ) (stream : ChunkStream) (format : ℕ) → Consumes (read_message_header id stream format)
unfolding read_message_header
read_message_header-Consumes id stream format =
    if-Consumes (format == 0) _ _ (read_format_0-Consumes id stream) (
      if-Consumes (format == 1) _ _ (read_format_1-Consumes id stream)
        (if-Consumes (format == 2) _ _ (read_format_2-Consumes id stream) (pure-Consumes stream)))

get_stream-Consumes : (id : ℕ) → Consumes (get_stream id)
unfolding get_stream store
get_stream-Consumes id = record {
  at = λ s. elim (Option-cases (lookup id s.streams)) [
    | inl e ↦ rw (e, get_stream) (omega arith, λ q. cc)
    | inr (t, e) ↦ rw (e, get_stream) (omega arith, λ q. cc)
  ];
}

deliver-Consumes :
    (id : ℕ) (stream : ChunkStream) (n : ℕ) (xs : Bytes) → Consumes (deliver id stream n xs)
unfolding deliver store
deliver-Consumes id stream n xs = record { at = λ s. ground arith }

read_data-Consumes : (id : ℕ) (stream : ChunkStream) → Consumes (read_data id stream)
unfolding read_data chunk_length
read_data-Consumes id stream =
    bind-Consumes (chunk_length stream) _ (record { at = λ s. (omega arith, λ q. cc) })
      λ n.
        bind-Consumes (read_full n) _ (read_full-Consumes n) λ xs. deliver-Consumes id stream n xs

-- What follows the basic header of a chunk.
abbrev chunk_rest : ℕ × ℕ → M (Option Message)
chunk_rest h = get_stream h.0 >>= λ stream.
    read_message_header h.0 stream h.1 >>= λ stream'. read_data h.0 stream'

chunk_rest-Consumes : (h : ℕ × ℕ) → Consumes (chunk_rest h)
chunk_rest-Consumes h = bind-Consumes (get_stream h.0) _ (get_stream-Consumes h.0) λ stream.
    bind-Consumes (read_message_header h.0 stream h.1) _
      (read_message_header-Consumes h.0 stream h.1) λ stream'. read_data-Consumes h.0 stream'

read_chunk-Consumes : Consumes read_chunk
unfolding read_chunk
read_chunk-Consumes =
    bind-Consumes read_basic_header _ read_basic_header-Consumes chunk_rest-Consumes

result_cases :
    (x : Result Message)
    → x ≢ err Error.out_of_fuel
    → ((msg : Message) × (x ≡ ok msg)) ⊎ (x ≡ err Error.eof) ⊎ (x ≡ err Error.unexpected_eof)
result_cases (ok msg) h = inl (msg, refl)
result_cases (err Error.eof) h = inr (inl refl)
result_cases (err Error.unexpected_eof) h = inr (inr refl)
result_cases (err Error.out_of_fuel) h = absurd (h refl)

-- A round fails on an empty input, and consumes a byte of any other.
read_chunk_progress :
    (r : Bytes) (c : ℕ) (m : List (ℕ × ChunkStream))
    → let x = read_chunk (reader r c m) in (x.0 ≡ err Error.eof) ⊎ (length x.1.r < length r)
unfolding read_chunk read_basic_header read_byte
read_chunk_progress [] c m = inl refl
read_chunk_progress (b ∷ r) c m =
    let sound =
      and_then-IsSound (length r) (basic_rest b (reader r c m)) chunk_rest
        ((basic_rest-Consumes b).at (reader r c m)) chunk_rest-Consumes in
    inr (suc-le-suc sound.0)

next_round-enough :
    (fuel : ℕ) (x : Result (Option Message) × ChunkReader)
    → ((s : ChunkReader) → length s.r < fuel → (read_loop fuel s).0 ≢ err Error.out_of_fuel)
    → (x.0 ≡ err Error.eof) ⊎ (length x.1.r < fuel)
    → x.0 ≢ err Error.out_of_fuel
    → (next_round (read_loop fuel) x).0 ≢ err Error.out_of_fuel
next_round-enough fuel (ok (some msg), s) again p h = λ e. cc
next_round-enough fuel (ok none, s) again (inl e) h = absurd (ground arith)
next_round-enough fuel (ok none, s) again (inr l) h = again s l
next_round-enough fuel (err e, s) again p h = λ q. h (cc)

read_loop-enough :
    (fuel : ℕ) (s : ChunkReader) → length s.r < fuel → (read_loop fuel s).0 ≢ err Error.out_of_fuel
unfolding read_loop
read_loop-enough zero s h = elim h [ ]
read_loop-enough (suc fuel) s h =
    next_round-enough fuel (read_chunk s) (read_loop-enough fuel)
      (elim (read_chunk_progress s.r s.chunk_size s.streams) [
        | inl e ↦ inl e
        | inr l ↦ inr (omega arith)
      ])
      (read_chunk-Consumes.at s).1

-- On every input and in every state of the reader, `ReadMessage` ends: with a message, or with the
-- error of a connection that ran dry.
pub read_message_terminates :
    (s : ChunkReader)
    → ((msg : Message) × ((read_message s).0 ≡ ok msg))
      ⊎ ((read_message s).0 ≡ err Error.eof)
      ⊎ ((read_message s).0 ≡ err Error.unexpected_eof)
unfolding read_message
read_message_terminates s =
    result_cases (read_message s).0 (read_loop-enough (suc (length s.r)) s (omega arith))
