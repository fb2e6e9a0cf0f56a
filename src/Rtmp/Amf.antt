-- ===== src/Rtmp/Amf.antt =====
-- The values of the AMF0 codec, amf.go. A string is its bytes, a float64 the number of its 64 bits;
-- `Int` is the type of the Go integers that `Encode` takes, and a map is the list of its
-- entries, in the order of a range over it.
pub mod Encoder
pub mod Decoder
pub mod Printed
pub mod Entries
pub mod RoundTrip
pub mod Termination
mod Tests
use zenlive.Common.{ℕ, Bool, String}
use zenlive.Rtmp.{Bytes}

-- `other` stands for a value of a type that the codec does not support.
mutual
  pub data Value (Int : Type 0) : Type 0 where
    null : Value Int
    number : ℕ → Value Int
    integer : Int → Value Int
    boolean : Bool → Value Int
    text : Bytes → Value Int
    object : Props Int → Value Int
    other : Value Int

  pub data Props (Int : Type 0) : Type 0 where
    nil : Props Int
    prop : Bytes → Value Int → Props Int → Props Int

abbrev pub amf0_type_number : ℕ
amf0_type_number = 0x00

abbrev pub amf0_type_boolean : ℕ
amf0_type_boolean = 0x01

abbrev pub amf0_type_string : ℕ
amf0_type_string = 0x02

abbrev pub amf0_type_object : ℕ
amf0_type_object = 0x03

abbrev pub amf0_type_null : ℕ
amf0_type_null = 0x05

abbrev pub amf0_type_undefined : ℕ
amf0_type_undefined = 0x06

abbrev pub amf0_type_ecma_array : ℕ
amf0_type_ecma_array = 0x08

abbrev pub amf0_type_object_end : ℕ
amf0_type_object_end = 0x09

abbrev pub amf0_type_long_string : ℕ
amf0_type_long_string = 0x0C
