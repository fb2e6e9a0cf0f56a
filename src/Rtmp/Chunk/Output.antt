-- ===== src/Rtmp/Chunk/Output.antt =====
-- What `WriteMessage` of chunk.go writes: the calls of `Write` that a message comes to, on any
-- writer, and the bytes of them on one that takes everything.
use zenlive.Common.{
  ℕ, zero, suc, ◌+◌, ◌-◌, ◌*◌, ◌%◌, ◌^◌, ◌<◌, ◌≤◌, ◌≡◌, refl, sym, ◌∙◌, ap, inl, inr, Bool, true,
  false, List, [], ◌∷◌, ◌++◌, Option, none, ltb, leb, if◌then◌else◌, length, take, drop, drop-add,
  length-drop, take_all, drop_all, dec_lt, lt→ltb, Bool-cases, arith,
}
use mathlib.Core.List.{append-nil, append_assoc}
use mathlib.Core.Path.{fun_ext}
use zenlive.Rtmp.{Bytes, Message}
use zenlive.Rtmp.Bytes.{byte, put_be16, put_be24, put_be32, put_le32}
use zenlive.Rtmp.Chunk.Writer.{
  Outcome, done, out_of_fuel, failed, continue, succeed, put, ◌>>◌, clip, write_basic_header,
  write_message_header, write_loop, write_message,
}

-- The payload in pieces of the chunk size, the last one shorter. `fuel` bounds their number.
unfoldable pub split : ℕ → ℕ → Bytes → List Bytes
split zero size xs = []
split (suc fuel) size [] = []
split (suc fuel) size (x ∷ xs) = take size (x ∷ xs) ∷ split fuel size (drop size (x ∷ xs))

unfoldable pub basic_writes : ℕ → ℕ → List Bytes
basic_writes format cs_id =
    if ltb cs_id 64
    then ((byte (format * 64) + byte cs_id) ∷ []) ∷ []
    else if ltb cs_id 320
    then (byte (format * 64) ∷ []) ∷ (byte (cs_id - 64) ∷ []) ∷ []
    else ((byte (format * 64) + 1) ∷ []) ∷ put_be16 (cs_id - 64) ∷ []

unfoldable pub header_bytes : Message → Bytes
header_bytes msg =
    put_be24 (if leb 0xFFFFFF msg.timestamp then 0xFFFFFF else msg.timestamp)
    ++ (put_be24 (length msg.payload % 2 ^ 32)
        ++ (byte msg.message_type_id ∷ put_le32 msg.message_stream_id))

unfoldable pub header_writes : Message → List Bytes
header_writes msg =
    header_bytes msg ∷ (if leb 0xFFFFFF msg.timestamp then put_be32 msg.timestamp ∷ [] else [])

-- The writes of the chunks: the first has the message's header, the others have none.
unfoldable pub chunk_writes : Message → Bool → List Bytes → List Bytes
chunk_writes msg is_first [] = []
chunk_writes msg true (c ∷ cs) =
    basic_writes 0 msg.chunk_stream_id ++ (header_writes msg ++ (c ∷ chunk_writes msg false cs))
chunk_writes msg false (c ∷ cs) =
    basic_writes 3 msg.chunk_stream_id ++ (c ∷ chunk_writes msg false cs)

abbrev pub message_writes : ℕ → Message → List Bytes
message_writes size msg = chunk_writes msg true (split (suc (length msg.payload)) size msg.payload)

pub split_nil : (fuel size : ℕ) → split fuel size [] ≡ []
unfolding split
split_nil zero size = refl
split_nil (suc fuel) size = refl

pub split_more :
    (fuel size : ℕ) (xs : Bytes)
    → 0 < length xs
    → split (suc fuel) size xs ≡ take size xs ∷ split fuel size (drop size xs)
unfolding split
split_more fuel size [] h = absurd (omega arith)
split_more fuel size (x ∷ xs) h = refl

take-clip : (size n : ℕ) (xs : Bytes) → n ≡ length xs → take (clip size n) xs ≡ take size xs
take-clip size n xs e = elim (Bool-cases (ltb size n)) [
  | inl t ↦ rw t
  | inr t ↦ rw t (take_all n xs (omega arith) ∙ sym (take_all size xs (ground arith)))
]

drop-clip : (size n : ℕ) (xs : Bytes) → n ≡ length xs → drop (clip size n) xs ≡ drop size xs
drop-clip size n xs e = elim (Bool-cases (ltb size n)) [
  | inl t ↦ rw t
  | inr t ↦ rw t (drop_all n xs (omega arith) ∙ sym (drop_all size xs (ground arith)))
]

module _ {W E : Type 0} (write : Bytes → W → Option E × W) where
  -- The writes in order, up to the first that fails.
  unfoldable pub write_all : List Bytes → W → Outcome E × W
  write_all [] w = (done, w)
  write_all (b ∷ bs) w = continue (put write b w) (write_all bs)

  continue_assoc :
      (x : Outcome E × W) (f g : W → Outcome E × W)
      → continue (continue x f) g ≡ continue x (λ w. continue (f w) g)
  continue_assoc (done, w) f g = refl
  continue_assoc (out_of_fuel, w) f g = refl
  continue_assoc (failed e, w) f g = refl

  continue_done : (x : Outcome E × W) → continue x succeed ≡ x
  continue_done (done, w) = refl
  continue_done (out_of_fuel, w) = refl
  continue_done (failed e, w) = refl

  write_all-append :
      (xs ys : List Bytes) (w : W)
      → write_all (xs ++ ys) w ≡ continue (write_all xs w) (write_all ys)
  unfolding write_all
  write_all-append [] ys w = refl
  write_all-append (x ∷ xs) ys w =
      ap (continue (put write x w)) (fun_ext (write_all-append xs ys))
      ∙ sym (continue_assoc (put write x w) (write_all xs) (write_all ys))

  write_one : (b : Bytes) → put write b ≡ write_all (b ∷ [])
  unfolding write_all
  write_one b = fun_ext λ w. sym (continue_done (put write b w))

  write_cons : (b : Bytes) (bs : List Bytes) → (put write b >> write_all bs) ≡ write_all (b ∷ bs)
  unfolding write_all
  write_cons b bs = refl

  write_nothing_after : (b : Bytes) → (put write b >> succeed) ≡ write_all (b ∷ [])
  unfolding write_all
  write_nothing_after b = refl

  write_two : (a b : Bytes) → (put write a >> put write b) ≡ write_all (a ∷ b ∷ [])
  write_two a b = ap (λ k. put write a >> k) (write_one b) ∙ write_cons a (b ∷ [])

  basic_header-writes :
      (cs_id : ℕ) (first : Bool)
      → write_basic_header write cs_id first
        ≡ write_all (basic_writes (if first then 0 else 3) cs_id)
  unfolding write_basic_header basic_writes
  basic_header-writes cs_id first = elim (Bool-cases (ltb cs_id 64)) [
    | inl short ↦ rw short (write_one _)
    | inr long ↦ elim (Bool-cases (ltb cs_id 320)) [
      | inl middle ↦ rw (long, middle) (write_two _ _)
      | inr wide ↦ rw (long, wide) (write_two _ _)
    ]
  ]

  message_header-writes :
      (msg : Message) → write_message_header write msg ≡ write_all (header_writes msg)
  unfolding write_message_header header_writes header_bytes
  message_header-writes msg = elim (Bool-cases (leb 0xFFFFFF msg.timestamp)) [
    | inl long ↦ rw long (write_two _ _)
    | inr short ↦ rw short (write_nothing_after _)
  ]

  write_append : (xs ys : List Bytes) → write_all (xs ++ ys) ≡ (write_all xs >> write_all ys)
  write_append xs ys = fun_ext (write_all-append xs ys)

  -- Four operations in a row.
  regroup_at :
      (x : Outcome E × W) (h p r : W → Outcome E × W)
      → continue (continue (continue x h) p) r ≡ continue x (h >> (p >> r))
  regroup_at (done, w) h p r = continue_assoc (h w) p r
  regroup_at (out_of_fuel, w) h p r = refl
  regroup_at (failed e, w) h p r = refl

  regroup : (b h p r : W → Outcome E × W) → (b >> h >> p >> r) ≡ (b >> (h >> (p >> r)))
  regroup b h p r = fun_ext λ w. regroup_at (b w) h p r

  -- One chunk: its basic header, the message's header where it is the first, its data, the rest.
  chunk_step :
      (msg : Message) (first : Bool) (c : Bytes) (cs : List Bytes)
      → (write_basic_header write msg.chunk_stream_id first
          >> (if first then write_message_header write msg else succeed)
          >> put write c
          >> write_all (chunk_writes msg false cs))
        ≡ write_all (chunk_writes msg first (c ∷ cs))
  unfolding chunk_writes
  chunk_step msg true c cs =
      rw (basic_header-writes msg.chunk_stream_id true, message_header-writes msg)
        (regroup _ (write_all (header_writes msg)) (put write c)
            (write_all (chunk_writes msg false cs))
          ∙ ap (λ k. write_all (basic_writes 0 msg.chunk_stream_id) >> k)
              (ap (λ k. write_all (header_writes msg) >> k) (write_cons c _)
                ∙ sym (write_append (header_writes msg) _))
          ∙ sym (write_append (basic_writes 0 msg.chunk_stream_id) _))
  chunk_step msg false c cs = rw (basic_header-writes msg.chunk_stream_id false) (
      regroup _ succeed (put write c) (write_all (chunk_writes msg false cs))
      ∙ ap (λ k. write_all (basic_writes 3 msg.chunk_stream_id) >> k) (write_cons c _)
      ∙ sym (write_append (basic_writes 3 msg.chunk_stream_id) _))

  loop_more :
      (fuel size : ℕ) (msg : Message) (offset : ℕ) (first : Bool) (w : W)
      → offset < length msg.payload
      → length msg.payload < 2 ^ 32
      → let t = clip size (length msg.payload - offset) in
        write_loop write (suc fuel) size msg offset first w
        ≡ (write_basic_header write msg.chunk_stream_id first
              >> (if first then write_message_header write msg else succeed)
              >> put write (take t (drop offset msg.payload))
              >> write_loop write fuel size msg (offset + t) false)
            w
  unfolding write_loop
  loop_more fuel size msg offset first w h l =
      let m : length msg.payload % 2 ^ 32 ≡ length msg.payload = omega arith in rw (m, lt→ltb _ _ h)

  loop_over :
      (fuel size : ℕ) (msg : Message) (offset : ℕ) (first : Bool) (w : W)
      → length msg.payload ≤ offset
      → length msg.payload < 2 ^ 32
      → write_loop write (suc fuel) size msg offset first w ≡ (done, w)
  unfolding write_loop
  loop_over fuel size msg offset first w h l =
      let m : length msg.payload % 2 ^ 32 ≡ length msg.payload = omega arith in
      let f : ltb offset (length msg.payload) ≡ false = ground arith in rw (m, f)

  loop-writes :
      (size : ℕ) (msg : Message)
      → 0 < size
      → length msg.payload < 2 ^ 32
      → (fuel offset : ℕ) (first : Bool) (w : W) → length msg.payload - offset < fuel
      → write_loop write fuel size msg offset first w
        ≡ write_all (chunk_writes msg first (split fuel size (drop offset msg.payload))) w
  unfolding split chunk_writes write_all
  loop-writes size msg h l zero offset first w e = elim e [ ]
  loop-writes size msg h l (suc fuel) offset first w e =
      let left = length msg.payload - offset in
      let xs = drop offset msg.payload in
      let n : length xs ≡ left = length-drop offset msg.payload in
      elim (dec_lt offset (length msg.payload)) [
        | yes more ↦
            loop_more fuel size msg offset first w more l
            ∙ rw
                (fun_ext (λ v.
                  loop-writes size msg h l fuel (offset + clip size left) false v (ground arith)))
                (ap (λ f. f w) (chunk_step msg first _ _)
                  ∙ rw (
                    split_more fuel size xs (omega (arith, n)),
                    drop-add offset (clip size left) msg.payload,
                    take-clip size left xs (sym n),
                    drop-clip size left xs (sym n),
                  ))
        | no over ↦
            loop_over fuel size msg offset first w (omega arith) l
            ∙ rw (drop_all offset msg.payload (omega arith), split, chunk_writes, write_all)
      ]

  -- With a positive chunk size and a payload of less than 2 ^ 32 bytes `WriteMessage` makes exactly
  -- the writes of the message's chunks, in order, on any writer: it ends, and it stops with the
  -- first error that `Write` returns.
  pub write_message-writes :
      (size : ℕ) (msg : Message) (w : W)
      → 0 < size
      → length msg.payload < 2 ^ 32
      → write_message write size msg w ≡ write_all (message_writes size msg) w
  unfolding write_message
  write_message-writes size msg w h l =
      loop-writes size msg h l (suc (length msg.payload)) 0 true w (omega arith)

-- The bytes of a row of writes.
abbrev pub flat : List Bytes → Bytes
flat [] = []
flat (b ∷ bs) = b ++ flat bs

pub flat-append : (xs ys : List Bytes) → flat (xs ++ ys) ≡ flat xs ++ flat ys
flat-append [] ys = refl
flat-append (x ∷ xs) ys = rw (flat-append xs ys) (sym (append_assoc x (flat xs) (flat ys)))

-- A `bytes.Buffer`: every write is taken, and joins what is there.
abbrev pub buffer_write : {E : Type 0} → Bytes → Bytes → Option E × Bytes
buffer_write b w = (none, w ++ b)

pub write_all-buffer :
    {E : Type 0} (bs : List Bytes) (w : Bytes)
    → write_all (buffer_write {E = E}) bs w ≡ (done, w ++ flat bs)
unfolding write_all
write_all-buffer [] w = rw append-nil
write_all-buffer {E} (b ∷ bs) w =
    rw (write_all-buffer {E = E} bs (w ++ b)) (rw (append_assoc w b (flat bs)))
