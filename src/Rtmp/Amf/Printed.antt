-- ===== src/Rtmp/Amf/Printed.antt =====
-- The bytes that amf.go encodes a value to.
use mathlib.Core.List.{append_assoc, append-nil}
use zenlive.Common.{
  ℕ, ◌%◌, ◌^◌, ◌<◌, ◌≡◌, ◌≢◌, refl, [], ◌∷◌, ◌++◌, ltb, if◌then◌else◌, Bool-cases, inl, inr, length,
}
use zenlive.Rtmp.{Bytes}
use zenlive.Rtmp.Bytes.{put_be16, put_be32}
use zenlive.Rtmp.Chunk.Output.{buffer_write}
use zenlive.Rtmp.Amf.{
  Value, Props, null, number, integer, boolean, text, object, other, nil, prop, amf0_type_number,
  amf0_type_boolean, amf0_type_string, amf0_type_object, amf0_type_null, amf0_type_ecma_array,
  amf0_type_object_end, amf0_type_long_string,
}
use zenlive.Rtmp.Amf.Encoder.{
  encoded, put_be64, count, encode_number, encode_boolean, encode_long_string, encode_string,
  encode_null, encode_end, encode, encode_props, encode_ecma_array,
}

-- Two bytes of zero and the marker close an object or an array.
abbrev pub object_end : Bytes
object_end = 0 ∷ 0 ∷ amf0_type_object_end ∷ []

abbrev pub printed_text : Bytes → Bytes
printed_text s =
    if ltb 65535 (length s)
    then amf0_type_long_string ∷ (put_be32 (length s % 2 ^ 32) ++ s)
    else amf0_type_string ∷ (put_be16 (length s % 2 ^ 16) ++ s)

module _ {Int : Type 0} where
  -- No entry has the name.
  abbrev pub Absent : Bytes → Props Int → Type 0
  Absent name nil = Unit {0}
  Absent name (prop n v props) = (n ≢ name) × Absent name props

module _ {Int : Type 0} (float64 : Int → ℕ) where
  -- The codec supports the value: numbers of 64 bits, texts of less than 4 GB, names that are
  -- not empty, of less than 64 KB and distinct.
  unfoldable mutual
    pub IsEncodable : Value Int → Type 0
    IsEncodable null = Unit {0}
    IsEncodable (number n) = n < 2 ^ 64
    IsEncodable (integer i) = float64 i < 2 ^ 64
    IsEncodable (boolean b) = Unit {0}
    IsEncodable (text s) = length s < 2 ^ 32
    IsEncodable (object props) = AreEncodable props
    IsEncodable other = ⊥

    pub AreEncodable : Props Int → Type 0
    AreEncodable nil = Unit {0}
    AreEncodable (prop name value props) =
        (0 < length name)
        × (length name < 2 ^ 16)
        × Absent name props
        × IsEncodable value
        × AreEncodable props

  unfoldable mutual
    pub printed : Value Int → Bytes
    printed null = amf0_type_null ∷ []
    printed (number n) = amf0_type_number ∷ put_be64 n
    printed (integer i) = amf0_type_number ∷ put_be64 (float64 i)
    printed (boolean b) = amf0_type_boolean ∷ (if b then 1 else 0) ∷ []
    printed (text s) = printed_text s
    printed (object props) = amf0_type_object ∷ (printed_props props ++ object_end)
    printed other = []

    pub printed_props : Props Int → Bytes
    printed_props nil = []
    printed_props (prop name value props) =
        put_be16 (length name % 2 ^ 16) ++ (name ++ (printed value ++ printed_props props))

  module _ {E : Type 0} where
    encode_text :
        (s w : Bytes)
        → encode_string float64 (buffer_write {E = E}) s w ≡ (encoded, w ++ printed_text s)
    unfolding encode_string encode_long_string
    encode_text s w = elim (Bool-cases (ltb 65535 (length s))) [
      | inl e ↦ rw e (simp append_assoc)
      | inr e ↦ rw e (simp append_assoc)
    ]

    encode_float :
        (n : ℕ) (w : Bytes)
        → encode_number float64 (buffer_write {E = E}) n w
          ≡ (encoded, w ++ (amf0_type_number ∷ put_be64 n))
    unfolding encode_number
    encode_float n w = simp append_assoc

    encode_ending :
        (w : Bytes) → encode_end float64 (buffer_write {E = E}) w ≡ (encoded, w ++ object_end)
    unfolding encode_end
    encode_ending w = simp append_assoc

    mutual
      unfolding encode printed IsEncodable encode_null encode_boolean

      encode-printed :
          (v : Value Int) (w : Bytes)
          → IsEncodable v
          → encode float64 (buffer_write {E = E}) v w ≡ (encoded, w ++ printed v)
      encode-printed null w h = refl
      encode-printed (number n) w h = encode_float n w
      encode-printed (integer i) w h = encode_float (float64 i) w
      encode-printed (boolean b) w h = simp append_assoc
      encode-printed (text s) w h = encode_text s w
      encode-printed (object props) w h =
          rw (encode_props-printed props (w ++ (amf0_type_object ∷ [])) h, encode_ending)
            (simp append_assoc)
      encode-printed other w h = absurd h

      encode_props-printed :
          (ps : Props Int) (w : Bytes)
          → AreEncodable ps
          → encode_props float64 (buffer_write {E = E}) ps w ≡ (encoded, w ++ printed_props ps)
      encode_props-printed nil w h = rw append-nil
      encode_props-printed (prop name v ps) w h =
          let (filled, fits, absent, good, rest) = h in
          rw (encode-printed v _ good, encode_props-printed ps _ rest) (simp append_assoc)

    -- A value that the codec supports is encoded to its bytes, whatever stands in the buffer.
    pub encode_lem :
        (v : Value Int) (w : Bytes)
        → IsEncodable v
        → encode float64 (buffer_write {E = E}) v w ≡ (encoded, w ++ printed v)
    encode_lem v w h = encode-printed v w h

    pub encode_ecma_array_lem :
        (ps : Props Int) (w : Bytes)
        → AreEncodable ps
        → encode_ecma_array float64 (buffer_write {E = E}) ps w ≡ (
          encoded,
          w
              ++ (amf0_type_ecma_array
                  ∷ (put_be32 (count ps % 2 ^ 32) ++ (printed_props ps ++ object_end))),
        )
    unfolding encode_ecma_array
    encode_ecma_array_lem ps w h =
        rw (encode_props-printed ps _ h, encode_ending) (simp append_assoc)
