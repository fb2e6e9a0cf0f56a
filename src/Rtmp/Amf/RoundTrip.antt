-- ===== src/Rtmp/Amf/RoundTrip.antt =====
-- `Decode` after `Encode` of amf.go.
use mathlib.Core.List.{append_assoc}
use zenlive.Common.{
  ℕ, zero, suc, ◌+◌, ◌*◌, ◌/◌, ◌%◌, ◌^◌, ◌<◌, ◌≤◌, ◌≡◌, refl, ap, ◌∙◌, true, false, [], ◌∷◌, ◌++◌,
  ltb, leb, ◌==◌, Bool-cases, inl, inr, length, length-append, take-append, drop-append, arith,
}
use zenlive.Rtmp.{Bytes}
use zenlive.Rtmp.Bytes.{be16-put, be32-put, put_be16, put_be32}
use zenlive.Rtmp.Chunk.Output.{buffer_write}
use zenlive.Rtmp.Amf.{
  Value, Props, null, number, integer, boolean, text, object, other, nil, prop,
  amf0_type_ecma_array, amf0_type_object_end,
}
use zenlive.Rtmp.Amf.Decoder.{
  ok, M, and_then, read_full, read_byte, read_u16, read_u32, be32_at, set_prop, decode_number,
  decode_boolean, decode_string, decode_long_string, decode_end, decode_marked, decode_value,
  decode_object, decode,
}
use zenlive.Rtmp.Amf.Encoder.{encoded, encode, encode_ecma_array, put_be64, count}
use zenlive.Rtmp.Amf.Printed.{
  Absent, IsEncodable, AreEncodable, printed, printed_props, printed_text, object_end, encode_lem,
  encode_ecma_array_lem,
}
use zenlive.Rtmp.Amf.Entries.{add_all, Apart, add_all-append}

read_full-append : (xs rest : Bytes) → read_full (length xs) (xs ++ rest) ≡ (ok xs, rest)
unfolding read_full
read_full-append xs rest =
    let h : leb (length xs) (length (xs ++ rest)) ≡ true = ground (arith, length-append xs rest) in
    rw (h, take-append xs rest, drop-append xs rest)

read_u16-put : (n : ℕ) (rest : Bytes) → n < 2 ^ 16 → read_u16 (put_be16 n ++ rest) ≡ (ok n, rest)
unfolding read_u16
read_u16-put n rest h = rw (read_full-append (put_be16 n) rest, be16-put n h)

read_u32-put : (n : ℕ) (rest : Bytes) → n < 2 ^ 32 → read_u32 (put_be32 n ++ rest) ≡ (ok n, rest)
unfolding read_u32
read_u32-put n rest h = rw (read_full-append (put_be32 n) rest, be32-put n h)

read_byte_lem : (b : ℕ) (rest : Bytes) → read_byte (b ∷ rest) ≡ (ok b, rest)
unfolding read_byte
read_byte_lem b rest = rw (read_full-append (b ∷ []) rest)

be64-put : (n : ℕ) → n < 2 ^ 64 → be32_at (put_be64 n) 0 * 2 ^ 32 + be32_at (put_be64 n) 4 ≡ n
be64-put n h =
    let e1 = be32-put (n / 2 ^ 32) (omega arith) in
    let e2 = be32-put (n % 2 ^ 32) (omega arith) in omega (arith, e1, e2)

module _ {Int : Type 0} where
  decode_number-put :
      (n : ℕ) (rest : Bytes)
      → n < 2 ^ 64
      → decode_number {Int = Int} (put_be64 n ++ rest) ≡ (ok (number n), rest)
  unfolding decode_number
  decode_number-put n rest h = rw (read_full-append (put_be64 n) rest, be64-put n h)

  -- Any loop stands for `DecodeObject` at the markers of other values.
  decode_text :
      (loop : Props Int → M (Value Int)) (s rest : Bytes)
      → length s < 2 ^ 32
      → and_then (read_byte (printed_text s ++ rest)) (decode_marked loop) ≡ (ok (text s), rest)
  unfolding decode_string decode_long_string
  decode_text loop s rest h = elim (Bool-cases (ltb 65535 (length s))) [
    | inl e ↦
        let m : length s % 2 ^ 32 ≡ length s = omega arith in
        rw (
          e,
          read_byte_lem,
          append_assoc,
          read_u32-put (length s % 2 ^ 32) (s ++ rest) (omega arith),
          m,
          read_full-append s rest,
        )
    | inr e ↦
        let l : length s < 2 ^ 16 = ground arith in
        let m : length s % 2 ^ 16 ≡ length s = omega arith in
        rw (
          e,
          read_byte_lem,
          append_assoc,
          read_u16-put (length s % 2 ^ 16) (s ++ rest) (omega arith),
          m,
          read_full-append s rest,
        )
  ]

module _ {Int : Type 0} (float64 : Int → ℕ) where
  -- What a value decodes to: its integers are float64 numbers.
  unfoldable mutual
    pub as_decoded : Value Int → Value Int
    as_decoded (integer i) = number (float64 i)
    as_decoded (object props) = object (props_as_decoded props)
    as_decoded v = v

    pub props_as_decoded : Props Int → Props Int
    props_as_decoded nil = nil
    props_as_decoded (prop name v props) = prop name (as_decoded v) (props_as_decoded props)

  Absent-as_decoded :
      (name : Bytes) (ps : Props Int) → Absent name ps → Absent name (props_as_decoded ps)
  unfolding props_as_decoded
  Absent-as_decoded name nil h = tt
  Absent-as_decoded name (prop n v ps) h = (h.0, Absent-as_decoded name ps h.1)

  Apart-as_decoded : (ps : Props Int) → AreEncodable float64 ps → Apart nil (props_as_decoded ps)
  unfolding props_as_decoded AreEncodable
  Apart-as_decoded nil h = tt
  Apart-as_decoded (prop name v ps) h =
      let (filled, fits, absent, good, others) = h in
      (tt, Absent-as_decoded name ps absent, Apart-as_decoded ps others)

  add_all-as_decoded :
      (ps : Props Int)
      → AreEncodable float64 ps
      → add_all nil (props_as_decoded ps) ≡ props_as_decoded ps
  add_all-as_decoded ps h = add_all-append nil (props_as_decoded ps) (Apart-as_decoded ps h)

  printed_pos : (v : Value Int) → IsEncodable float64 v → 0 < length (printed float64 v)
  unfolding printed IsEncodable
  printed_pos (text s) h = elim (Bool-cases (ltb 65535 (length s))) [
    | inl e ↦ rw e (omega arith)
    | inr e ↦ rw e (omega arith)
  ]
  printed_pos other h = absurd h
  printed_pos _ h = omega arith

  mutual
    unfolding decode_value printed IsEncodable as_decoded add_all decode_boolean decode_end

    decode_value-printed :
        (v : Value Int) (rest : Bytes) (fuel : ℕ)
        → IsEncodable float64 v
        → length (printed float64 v) ≤ fuel
        → decode_value fuel (printed float64 v ++ rest) ≡ (ok (as_decoded v), rest)
    decode_value-printed v rest zero h l = absurd (omega (arith, printed_pos v h))
    decode_value-printed null rest (suc f) h l = rw (read_byte_lem)
    decode_value-printed (number n) rest (suc f) h l =
        rw (read_byte_lem) (decode_number-put n rest h)
    decode_value-printed (integer i) rest (suc f) h l =
        rw (read_byte_lem) (decode_number-put (float64 i) rest h)
    decode_value-printed (boolean true) rest (suc f) h l = rw (read_byte_lem, read_byte_lem)
    decode_value-printed (boolean false) rest (suc f) h l = rw (read_byte_lem, read_byte_lem)
    decode_value-printed (text s) rest (suc f) h l = decode_text (decode_object f) s rest h
    decode_value-printed (object ps) rest (suc f) h l =
        rw (read_byte_lem, append_assoc)
          (decode_object-printed ps nil rest f h
              (omega (arith, length-append (printed_props float64 ps) object_end))
            ∙ ap (λ x. (ok (object x), rest)) (add_all-as_decoded ps h))
    decode_value-printed other rest (suc f) h l = absurd h

    decode_object-printed :
        (ps : Props Int) (obj : Props Int) (rest : Bytes) (fuel : ℕ)
        → AreEncodable float64 ps
        → length (printed_props float64 ps) + 3 ≤ fuel
        → decode_object fuel obj (printed_props float64 ps ++ (object_end ++ rest))
          ≡ (ok (object (add_all obj (props_as_decoded ps))), rest)
    decode_object-printed ps obj rest zero h l = absurd (omega arith)
    decode_object-printed nil obj rest (suc f) h l =
        rw (read_u16-put 0 (amf0_type_object_end ∷ rest) (omega arith), read_byte_lem)
    decode_object-printed (prop name v ps) obj rest (suc f) h l =
        let (filled, fits, absent, good, others) = h in
        let m : length name % 2 ^ 16 ≡ length name = omega arith in
        let z : (length name == 0) ≡ false = ground arith in
        let total : length (printed_props float64 (prop name v ps))
            ≡ 2 + length name + length (printed float64 v) + length (printed_props float64 ps) =
          omega (
            arith,
            length-append name (printed float64 v ++ printed_props float64 ps),
            length-append (printed float64 v) (printed_props float64 ps),
          ) in
        rw
          (
            read_u16-put (length name % 2 ^ 16) _ (omega arith),
            m,
            z,
            append_assoc,
            read_full-append name _,
            append_assoc,
            decode_value-printed v _ f good (omega (arith, total)),
          )
          (decode_object-printed ps (set_prop name (as_decoded v) obj) rest f others
            (omega (arith, total)))

  decode_array-printed :
      (n : ℕ) (ps : Props Int) (rest : Bytes) (fuel : ℕ)
      → n < 2 ^ 32
      → AreEncodable float64 ps
      → length (printed_props float64 ps) + 3 ≤ fuel
      → decode_value
          (suc fuel)
          (amf0_type_ecma_array ∷ (put_be32 n ++ (printed_props float64 ps ++ object_end) ++ rest))
        ≡ (ok (object (props_as_decoded ps)), rest)
  unfolding decode_value
  decode_array-printed n ps rest fuel l h enough =
      rw
        (
          read_byte_lem,
          append_assoc (printed_props float64 ps) object_end rest,
          read_u32-put n (printed_props float64 ps ++ (object_end ++ rest)) l,
        )
        (decode_object-printed ps nil rest fuel h enough
          ∙ ap (λ x. (ok (object x), rest)) (add_all-as_decoded ps h))

  module _ {E : Type 0} where
    -- A value that the codec supports, encoded to a buffer, is decoded again from what was
    -- written, whatever follows: integers come back as float64 numbers, everything else as it was.
    pub decode-encode :
        (v : Value Int) (rest : Bytes)
        → IsEncodable float64 v
        → let (outcome, out) = encode float64 (buffer_write {E = E}) v [] in
          (outcome ≡ encoded) × (decode (out ++ rest) ≡ (ok (as_decoded v), rest))
    unfolding decode
    decode-encode v rest h =
        let enough : length (printed float64 v) ≤ suc (length (printed float64 v ++ rest)) =
          omega (arith, length-append (printed float64 v) rest) in
        rw (encode_lem float64 {E = E} v [] h) (refl, decode_value-printed v rest _ h enough)

    -- An ECMA array of such entries comes back as an object of the same entries.
    pub decode-encode_ecma_array :
        (ps : Props Int) (rest : Bytes)
        → AreEncodable float64 ps
        → let (outcome, out) = encode_ecma_array float64 (buffer_write {E = E}) ps [] in
          (outcome ≡ encoded) × (decode (out ++ rest) ≡ (ok (object (props_as_decoded ps)), rest))
    unfolding decode
    decode-encode_ecma_array ps rest h =
        let entries = printed_props float64 ps ++ object_end in
        let enough : length (printed_props float64 ps) + 3
            ≤ suc (suc (suc (suc (suc (length (entries ++ rest)))))) =
          omega (
            arith,
            length-append entries rest,
            length-append (printed_props float64 ps) object_end,
          ) in
        rw (encode_ecma_array_lem float64 {E = E} ps [] h)
          (refl, decode_array-printed (count ps % 2 ^ 32) ps rest _ (omega arith) h enough)
