-- ===== src/Rtmp/Amf/Tests.antt =====
-- Runs of the AMF0 codec of amf.go on a connect command and on broken inputs.
use zenlive.Common.{ℕ, ◌≡◌, ◌≢◌, ◌<◌, refl, true, [], ◌∷◌, ◌++◌, length, arith}
use zenlive.Rtmp.{Bytes}
use zenlive.Rtmp.Chunk.Output.{buffer_write}
use zenlive.Rtmp.Amf.{Props, null, integer, boolean, text, object, other, nil, prop}
use zenlive.Rtmp.Amf.Encoder.{encoded, unsupported, encode, encode_ecma_array}
use zenlive.Rtmp.Amf.Decoder.{
  Error, ok, err, decode, decode_value, read_full, read_byte, read_u16, decode_string,
}
use zenlive.Rtmp.Amf.Printed.{IsEncodable, AreEncodable}
use zenlive.Rtmp.Amf.RoundTrip.{
  as_decoded, props_as_decoded, decode-encode, decode-encode_ecma_array,
}
use zenlive.Rtmp.Amf.Termination.{decode_terminates}

-- The integers of the tests are the bits of their float64.
abbrev float64 : ℕ → ℕ
float64 i = i

-- Entries with the names 1, 2 and 3, the last one an object.
abbrev entries : Props ℕ
entries = prop (1 ∷ []) (text (108 ∷ 105 ∷ [])) (
    prop (2 ∷ []) (integer 0x4008000000000000)
      (prop (3 ∷ []) (object (prop (1 ∷ []) null (prop (2 ∷ []) (boolean true) nil))) nil))

entries-AreEncodable : AreEncodable float64 entries
unfolding AreEncodable
entries-AreEncodable = (
  omega arith,
  omega arith,
  (λ q. cc, (λ q. cc, tt)),
  omega arith,
  (
    omega arith,
    omega arith,
    (λ q. cc, tt),
    omega arith,
    (
      omega arith,
      omega arith,
      tt,
      (omega arith, omega arith, (λ q. cc, tt), tt, (omega arith, omega arith, tt, tt, tt)),
      tt,
    ),
  ),
)

entries-IsEncodable : IsEncodable float64 (object entries)
unfolding IsEncodable
entries-IsEncodable = entries-AreEncodable

decode-encode_example :
    let (outcome, out) = encode float64 (buffer_write {E = ℕ}) (object entries) [] in
    (outcome ≡ encoded)
    × (decode (out ++ (5 ∷ [])) ≡ (ok (as_decoded float64 (object entries)), 5 ∷ []))
decode-encode_example = decode-encode float64 {E = ℕ} (object entries) (5 ∷ []) entries-IsEncodable

array_round_trip :
    let (outcome, out) = encode_ecma_array float64 (buffer_write {E = ℕ}) entries [] in
    (outcome ≡ encoded)
    × (decode (out ++ []) ≡ (ok (object (props_as_decoded float64 entries)), []))
array_round_trip = decode-encode_ecma_array float64 {E = ℕ} entries [] entries-AreEncodable

-- Objects that are never closed.
abbrev nested : Bytes
nested = 3 ∷ 0 ∷ 1 ∷ 97 ∷ 3 ∷ 0 ∷ 1 ∷ 97 ∷ 3 ∷ []

decode_terminates_example :
    ((fuel : ℕ)
      → length nested < fuel
      → (decode_value {Int = ℕ} fuel nested).0 ≢ err Error.out_of_fuel)
    × ((decode {Int = ℕ} nested).0 ≢ err Error.out_of_fuel)
decode_terminates_example = decode_terminates ℕ nested

-- An input that stops in the middle, a marker that is not known, and a value of a type that is
-- not supported.
broken :
    ((decode {Int = ℕ} nested).0 ≡ err Error.eof)
    × ((decode {Int = ℕ} (2 ∷ 0 ∷ 5 ∷ 97 ∷ [])).0 ≡ err Error.unexpected_eof)
    × ((decode {Int = ℕ} (7 ∷ [])).0 ≡ err (Error.unsupported_marker 7))
    × ((encode float64 (buffer_write {E = ℕ}) other []).0 ≡ unsupported)
unfolding decode decode_value read_byte read_full read_u16 decode_string encode
broken = (refl, refl, refl, refl)
