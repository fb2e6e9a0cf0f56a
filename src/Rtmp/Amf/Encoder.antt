-- ===== src/Rtmp/Amf/Encoder.antt =====
-- `AMF0Encoder` of amf.go over any `io.Writer`. The conversion of an integer to the bits of a
-- float64 is a parameter.
use zenlive.Common.{
  ℕ, suc, ◌/◌, ◌%◌, ◌^◌, Bool, [], ◌∷◌, ◌++◌, Option, none, some, ltb, if◌then◌else◌, length,
}
use zenlive.Rtmp.{Bytes}
use zenlive.Rtmp.Bytes.{put_be16, put_be32}
use zenlive.Rtmp.Amf.{
  Value, Props, null, number, integer, boolean, text, object, other, nil, prop, amf0_type_number,
  amf0_type_boolean, amf0_type_string, amf0_type_object, amf0_type_null, amf0_type_ecma_array,
  amf0_type_object_end, amf0_type_long_string,
}

-- How a call ends: `unsupported` is the error of `Encode` for a type that it does not know.
pub data Outcome (E : Type 0) : Type 0 where
  encoded unsupported : Outcome E
  failed : E → Outcome E

module _ {W E : Type 0} where
  abbrev pub continue : Outcome E × W → (W → Outcome E × W) → Outcome E × W
  continue (encoded, w) k = k w
  continue (unsupported, w) k = (unsupported, w)
  continue (failed e, w) k = (failed e, w)

  infixl 5 ◌>>◌
  abbrev pub ◌>>◌ : (W → Outcome E × W) → (W → Outcome E × W) → W → Outcome E × W
  ◌>>◌ m k w = continue (m w) k

  abbrev pub from_write : Option E × W → Outcome E × W
  from_write (none, w) = (encoded, w)
  from_write (some e, w) = (failed e, w)

-- The 8 bytes of a uint64, most significant first.
abbrev pub put_be64 : ℕ → Bytes
put_be64 v = put_be32 (v / 2 ^ 32) ++ put_be32 (v % 2 ^ 32)

abbrev pub count : {Int : Type 0} → Props Int → ℕ
count nil = 0
count (prop name value props) = suc (count props)

module _ {Int W E : Type 0} (float64 : Int → ℕ) (write : Bytes → W → Option E × W) where
  abbrev pub put : Bytes → W → Outcome E × W
  put bytes w = from_write (write bytes w)

  abbrev pub write_byte : ℕ → W → Outcome E × W
  write_byte b = put (b ∷ [])

  unfoldable pub encode_number : ℕ → W → Outcome E × W
  encode_number n = write_byte amf0_type_number >> put (put_be64 n)

  unfoldable pub encode_boolean : Bool → W → Outcome E × W
  encode_boolean b = write_byte amf0_type_boolean >> write_byte (if b then 1 else 0)

  unfoldable pub encode_long_string : Bytes → W → Outcome E × W
  encode_long_string s =
      write_byte amf0_type_long_string >> put (put_be32 (length s % 2 ^ 32)) >> put s

  unfoldable pub encode_string : Bytes → W → Outcome E × W
  encode_string s =
      if ltb 65535 (length s)
      then encode_long_string s
      else write_byte amf0_type_string >> put (put_be16 (length s % 2 ^ 16)) >> put s

  unfoldable pub encode_null : W → Outcome E × W
  encode_null = write_byte amf0_type_null

  -- The end of an object or an array.
  unfoldable pub encode_end : W → Outcome E × W
  encode_end = put (put_be16 0) >> write_byte amf0_type_object_end

  -- `Encode`, and the loop of `EncodeObject` and `EncodeECMAArray` over the entries.
  unfoldable mutual
    pub encode : Value Int → W → Outcome E × W
    encode null w = encode_null w
    encode (number n) w = encode_number n w
    encode (integer i) w = encode_number (float64 i) w
    encode (boolean b) w = encode_boolean b w
    encode (text s) w = encode_string s w
    encode (object props) w =
        continue (write_byte amf0_type_object w) (λ w'. continue (encode_props props w') encode_end)
    encode other w = (unsupported, w)

    pub encode_props : Props Int → W → Outcome E × W
    encode_props nil w = (encoded, w)
    encode_props (prop name value props) w =
        continue (put (put_be16 (length name % 2 ^ 16)) w)
          (λ w1. continue (put name w1) (λ w2. continue (encode value w2) (encode_props props)))

  unfoldable pub encode_object : Props Int → W → Outcome E × W
  encode_object props = write_byte amf0_type_object >> encode_props props >> encode_end

  unfoldable pub encode_ecma_array : Props Int → W → Outcome E × W
  encode_ecma_array props =
      write_byte amf0_type_ecma_array
      >> put (put_be32 (count props % 2 ^ 32))
      >> encode_props props
      >> encode_end
