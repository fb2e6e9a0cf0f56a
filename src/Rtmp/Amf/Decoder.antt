-- ===== src/Rtmp/Amf/Decoder.antt =====
-- `AMF0Decoder` of amf.go over the bytes that its reader still delivers. Each nested call or round
-- of the loop takes a byte at least, so the bytes left and one are enough fuel.
use zenlive.Common.{
  ℕ, zero, suc, ◌+◌, ◌*◌, ◌^◌, Bool, true, false, not, ◌&&◌, [], ◌∷◌, leb, ◌==◌, if◌then◌else◌,
  length, take, drop, get_or,
}
use zenlive.Rtmp.{Bytes}
use zenlive.Rtmp.Bytes.{be16, be32}
use zenlive.Rtmp.Amf.{
  Value, Props, null, number, boolean, text, object, nil, prop, amf0_type_number, amf0_type_boolean,
  amf0_type_string, amf0_type_object, amf0_type_null, amf0_type_undefined, amf0_type_ecma_array,
  amf0_type_object_end, amf0_type_long_string,
}

-- `out_of_fuel` is no Go error: the model's recursion stopped.
pub data Error : Type 0 where
  eof unexpected_eof out_of_fuel : Error
  unsupported_marker expected_object_end : ℕ → Error

pub data Result {ℓ} (A : Type ℓ) : Type ℓ where
  ok : A → Result A
  err : Error → Result A

abbrev pub M : Type 0 → Type 0
M A = Bytes → Result A × Bytes

abbrev pub and_then : {A B : Type 0} → Result A × Bytes → (A → M B) → Result B × Bytes
and_then (ok a, r) f = f a r
and_then (err e, r) f = (err e, r)

infixl 5 ◌>>=◌ ◌>>◌
abbrev pub ◌>>=◌ : {A B : Type 0} → M A → (A → M B) → M B
◌>>=◌ m f r = and_then (m r) f

abbrev pub ◌>>◌ : {A B : Type 0} → M A → M B → M B
◌>>◌ m k = m >>= λ _. k

abbrev pub pure : {A : Type 0} → A → M A
pure a r = (ok a, r)

abbrev pub fail : {A : Type 0} → Error → M A
fail e r = (err e, r)

-- `io.ReadFull` of `n` bytes.
unfoldable pub read_full : ℕ → M Bytes
read_full n r =
    if leb n (length r)
    then (ok (take n r), drop n r)
    else (err (if length r == 0 then Error.eof else Error.unexpected_eof), [])

unfoldable pub read_byte : M ℕ
read_byte = do buf ← read_full 1; pure (get_or buf 0 0)

unfoldable pub read_u16 : M ℕ
read_u16 = do buf ← read_full 2; pure (be16 (get_or buf 0 0) (get_or buf 1 0))

abbrev pub be32_at : Bytes → ℕ → ℕ
be32_at buf i =
    be32 (get_or buf i 0) (get_or buf (i + 1) 0) (get_or buf (i + 2) 0) (get_or buf (i + 3) 0)

unfoldable pub read_u32 : M ℕ
read_u32 = do buf ← read_full 4; pure (be32_at buf 0)

abbrev pub same_bytes : Bytes → Bytes → Bool
same_bytes [] [] = true
same_bytes (x ∷ xs) (y ∷ ys) = (x == y) && same_bytes xs ys
same_bytes _ _ = false

module _ {Int : Type 0} where
  -- `obj[name] = value`
  unfoldable pub set_prop : Bytes → Value Int → Props Int → Props Int
  set_prop name value nil = prop name value nil
  set_prop name value (prop n v props) =
      let rest = set_prop name value props in
      if same_bytes n name then prop name value props else prop n v rest

  unfoldable pub decode_number : M (Value Int)
  decode_number = do buf ← read_full 8; pure (number (be32_at buf 0 * 2 ^ 32 + be32_at buf 4))

  unfoldable pub decode_boolean : M (Value Int)
  decode_boolean = do b ← read_byte; pure (boolean (not (b == 0)))

  unfoldable pub decode_string : M (Value Int)
  decode_string = do n ← read_u16; buf ← read_full n; pure (text buf)

  unfoldable pub decode_long_string : M (Value Int)
  decode_long_string = do n ← read_u32; buf ← read_full n; pure (text buf)

  -- The end of `DecodeObject`'s loop: a name of no bytes, and the marker after it.
  unfoldable pub decode_end : Props Int → M (Value Int)
  decode_end obj = do
    marker ← read_byte
    if marker == amf0_type_object_end then pure (object obj) else fail (expected_object_end marker)

  -- One round of the loop, given the decoder of a value and the rest of the loop.
  abbrev pub decode_prop : M (Value Int) → (Props Int → M (Value Int)) → Props Int → M (Value Int)
  decode_prop value next obj = do
    name_len ← read_u16
    if name_len == 0
        then decode_end obj
        else (do name ← read_full name_len; v ← value; next (set_prop name v obj))

  -- `Decode` at a marker, given the loop of `DecodeObject`.
  abbrev pub decode_marked : (Props Int → M (Value Int)) → ℕ → M (Value Int)
  decode_marked loop marker =
      if marker == amf0_type_number
      then decode_number
      else if marker == amf0_type_boolean
      then decode_boolean
      else if marker == amf0_type_string
      then decode_string
      else if marker == amf0_type_object
      then loop nil
      else if marker == amf0_type_null
      then pure null
      else if marker == amf0_type_undefined
      then pure null
      else if marker == amf0_type_ecma_array
      then (do read_u32; loop nil)
      else if marker == amf0_type_long_string
      then decode_long_string
      else fail (unsupported_marker marker)

  unfoldable mutual
    pub decode_value : ℕ → Bytes → Result (Value Int) × Bytes
    decode_value zero r = (err Error.out_of_fuel, r)
    decode_value (suc fuel) r = and_then (read_byte r) (decode_marked (decode_object fuel))

    pub decode_object : ℕ → Props Int → Bytes → Result (Value Int) × Bytes
    decode_object zero obj r = (err Error.out_of_fuel, r)
    decode_object (suc fuel) obj r = decode_prop (decode_value fuel) (decode_object fuel) obj r

  -- `Decode`.
  unfoldable pub decode : M (Value Int)
  decode r = decode_value (suc (length r)) r
