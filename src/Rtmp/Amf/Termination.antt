-- ===== src/Rtmp/Amf/Termination.antt =====
-- The decoder of amf.go ends: the nested calls of `Decode` and the rounds of the loop of
-- `DecodeObject` take bytes that their reader has.
use zenlive.Common.{
  ℕ, zero, suc, ◌+◌, ◌<◌, ◌≤◌, ◌≢◌, Bool, true, false, [], leb, ◌==◌, if◌then◌else◌, if_cases,
  length, take, drop, length-drop, arith,
}
use zenlive.Rtmp.{Bytes}
use zenlive.Rtmp.Amf.{
  Value, Props, nil, text, object, null, amf0_type_object_end, amf0_type_number, amf0_type_boolean,
  amf0_type_string, amf0_type_object, amf0_type_null, amf0_type_undefined, amf0_type_ecma_array,
  amf0_type_long_string,
}
use zenlive.Rtmp.Amf.Decoder.{
  unsupported_marker, Error, Result, ok, err, M, and_then, pure, fail, ◌>>◌, expected_object_end,
  read_full, read_byte, read_u16, read_u32, set_prop, decode_number, decode_boolean, decode_string,
  decode_long_string, decode_end, decode_marked, decode_value, decode_object, decode,
}

-- Of `n` bytes the reading took `k` at least, or it failed for another reason than the fuel.
abbrev Takes : {A : Type 0} → ℕ → ℕ → Result A × Bytes → Type 0
Takes k n (ok a, r) = length r + k ≤ n
Takes k n (err e, r) = e ≢ Error.out_of_fuel

and_then-Takes :
    {A B : Type 0} (j k n : ℕ) (x : Result A × Bytes) (f : A → M B)
    → Takes k n x
    → ((a : A) (r : Bytes) → length r + k ≤ n → Takes j n (f a r))
    → Takes j n (and_then x f)
and_then-Takes j k n (ok a, r) f t g = g a r t
and_then-Takes j k n (err e, r) f t g = t

Takes-mono : {A : Type 0} (k m n : ℕ) (x : Result A × Bytes) → m ≤ n → Takes k m x → Takes k n x
Takes-mono k m n (ok a, r) l t = omega (arith, l, t)
Takes-mono k m n (err e, r) l t = t

read_full-Takes : (k : ℕ) (r : Bytes) → Takes k (length r) (read_full k r)
unfolding read_full
read_full-Takes k r =
    if_cases (Takes {A = Bytes} k (length r)) (leb k (length r)) (ok (take k r), drop k r)
      (err (if length r == 0 then Error.eof else Error.unexpected_eof), [])
      (λ e. ground (arith, length-drop k r))
      (λ e.
        if_cases (λ e. e ≢ Error.out_of_fuel) (length r == 0) Error.eof Error.unexpected_eof
          (λ _ q. cc) (λ _ q. cc))

read_byte-Takes : (r : Bytes) → Takes 1 (length r) (read_byte r)
unfolding read_byte
read_byte-Takes r =
    and_then-Takes 1 1 (length r) (read_full 1 r) _ (read_full-Takes 1 r) (λ buf r' l. l)

read_u16-Takes : (r : Bytes) → Takes 2 (length r) (read_u16 r)
unfolding read_u16
read_u16-Takes r =
    and_then-Takes 2 2 (length r) (read_full 2 r) _ (read_full-Takes 2 r) (λ buf r' l. l)

read_u32-Takes : (r : Bytes) → Takes 4 (length r) (read_u32 r)
unfolding read_u32
read_u32-Takes r =
    and_then-Takes 4 4 (length r) (read_full 4 r) _ (read_full-Takes 4 r) (λ buf r' l. l)

module _ (Int : Type 0) where
  decode_number-Takes : (r : Bytes) → Takes {A = Value Int} 0 (length r) (decode_number r)
  unfolding decode_number
  decode_number-Takes r =
      and_then-Takes 0 8 (length r) (read_full 8 r) _ (read_full-Takes 8 r)
        (λ buf r' l. omega (arith, l))

  decode_boolean-Takes : (r : Bytes) → Takes {A = Value Int} 0 (length r) (decode_boolean r)
  unfolding decode_boolean
  decode_boolean-Takes r =
      and_then-Takes 0 1 (length r) (read_byte r) _ (read_byte-Takes r) (λ b r' l. omega (arith, l))

  -- A string: its length, and as many bytes.
  text-Takes :
      (k n : ℕ) (x : Result ℕ × Bytes)
      → Takes k n x
      → Takes {A = Value Int} 0 n
          (and_then x (λ m r. and_then (read_full m r) (λ buf r'. (ok (text buf), r'))))
  text-Takes k n x t = and_then-Takes 0 k n x _ t (λ m r l.
      and_then-Takes 0 m n (read_full m r) _
        (Takes-mono m (length r) n (read_full m r) (omega (arith, l)) (read_full-Takes m r))
        (λ buf r' l'. omega (arith, l')))

  decode_string-Takes : (r : Bytes) → Takes {A = Value Int} 0 (length r) (decode_string r)
  unfolding decode_string
  decode_string-Takes r = text-Takes 2 (length r) (read_u16 r) (read_u16-Takes r)

  decode_long_string-Takes : (r : Bytes) → Takes {A = Value Int} 0 (length r) (decode_long_string r)
  unfolding decode_long_string
  decode_long_string-Takes r = text-Takes 4 (length r) (read_u32 r) (read_u32-Takes r)

  decode_end-Takes : (obj : Props Int) (r : Bytes) → Takes 0 (length r) (decode_end obj r)
  unfolding decode_end
  decode_end-Takes obj r =
      and_then-Takes 0 1 (length r) (read_byte r) _ (read_byte-Takes r) (λ b r' l.
        if_cases (λ f. Takes {A = Value Int} 0 (length r) (f r')) (b == amf0_type_object_end)
          (pure (object obj)) (fail (expected_object_end b)) (λ _. omega (arith, l)) (λ _ q. cc))

  -- The decoder takes no more than there is.
  Reads : M (Value Int) → Bytes → Type 0
  Reads m r = Takes 0 (length r) (m r)

  to-Reads : (m : M (Value Int)) (r : Bytes) → Takes 0 (length r) (m r) → Reads m r
  unfolding Reads
  to-Reads m r t = t

  of-Reads : (m : M (Value Int)) (r : Bytes) → Reads m r → Takes 0 (length r) (m r)
  unfolding Reads
  of-Reads m r t = t

  either-Reads :
      (r : Bytes) (b : Bool) (m k : M (Value Int))
      → Reads m r
      → Reads k r
      → Reads (if b then m else k) r
  either-Reads r true m k t f = t
  either-Reads r false m k t f = f

  decode_marked-Reads :
      (loop : Props Int → M (Value Int)) (marker : ℕ) (r : Bytes)
      → ((s : Bytes) → length s ≤ length r → Takes 0 (length r) (loop nil s))
      → Reads (decode_marked loop marker) r
  decode_marked-Reads loop marker r t =
      let array : Takes {A = Value Int} 0 (length r) ((read_u32 >> loop nil) r) =
        and_then-Takes 0 4 (length r) (read_u32 r) (λ (c : ℕ). loop nil) (read_u32-Takes r)
          (λ c s l. t s (omega (arith, l))) in
      let nothing = to-Reads (pure null) r (omega arith) in
      either-Reads r (marker == amf0_type_number) _ _
        (to-Reads decode_number r (decode_number-Takes r))
        (either-Reads r (marker == amf0_type_boolean) _ _
          (to-Reads decode_boolean r (decode_boolean-Takes r))
          (either-Reads r (marker == amf0_type_string) _ _
            (to-Reads decode_string r (decode_string-Takes r))
            (either-Reads r (marker == amf0_type_object) _ _
              (to-Reads (loop nil) r (t r (omega arith)))
              (either-Reads r (marker == amf0_type_null) _ _ (nothing) (
                either-Reads r (marker == amf0_type_undefined) _ _ (nothing) (
                  either-Reads r (marker == amf0_type_ecma_array) _ _
                    (to-Reads (read_u32 >> loop nil) r array)
                    (either-Reads r (marker == amf0_type_long_string) _ _
                      (to-Reads decode_long_string r (decode_long_string-Takes r))
                      (to-Reads (fail (unsupported_marker marker)) r (λ q. cc)))))))))

  decode_marked-Takes :
      (loop : Props Int → M (Value Int)) (marker : ℕ) (r : Bytes)
      → ((s : Bytes) → length s ≤ length r → Takes 0 (length r) (loop nil s))
      → Takes 0 (length r) (decode_marked loop marker r)
  decode_marked-Takes loop marker r t = of-Reads _ r (decode_marked-Reads loop marker r t)

  mutual
    unfolding decode_value

    decode_value-Takes :
        (fuel : ℕ) (r : Bytes)
        → length r < fuel
        → Takes {A = Value Int} 0 (length r) (decode_value fuel r)
    decode_value-Takes zero r h = absurd (omega (arith, h))
    decode_value-Takes (suc fuel) r h =
        and_then-Takes 0 1 (length r) (read_byte r) _ (read_byte-Takes r) (λ marker s l.
          Takes-mono 0 (length s) (length r) _ (omega (arith, l)) (
            decode_marked-Takes (decode_object fuel) marker s (λ u m.
              Takes-mono 0 (length u) (length s) _ m
                (decode_object-Takes fuel nil u (omega (arith, h, l, m))))))

    decode_object-Takes :
        (fuel : ℕ) (obj : Props Int) (r : Bytes)
        → length r < fuel
        → Takes 0 (length r) (decode_object fuel obj r)
    decode_object-Takes zero obj r h = absurd (omega (arith, h))
    decode_object-Takes (suc fuel) obj r h =
        and_then-Takes 0 2 (length r) (read_u16 r) _ (read_u16-Takes r) (λ name_len s l.
          Takes-mono 0 (length s) (length r) _ (omega (arith, l)) (
            of-Reads _ s (
              either-Reads s (name_len == 0) (decode_end obj) _
                (to-Reads _ s (decode_end-Takes obj s))
                (to-Reads _ s (
                  and_then-Takes 0 name_len (length s) (read_full name_len s) _
                    (read_full-Takes name_len s)
                    (λ name u l'.
                      and_then-Takes 0 0 (length s) (decode_value fuel u) _
                        (Takes-mono 0 (length u) (length s) _ (omega (arith, l'))
                          (decode_value-Takes fuel u (omega (arith, h, l, l'))))
                        (λ v w l''. Takes-mono 0 (length w) (length s) _ (omega (arith, l'')) (
                          decode_object-Takes fuel (set_prop name v obj) w
                            (omega (arith, h, l, l', l''))))))))))

  Takes-ends :
      {A : Type 0} (k n : ℕ) (x : Result A × Bytes) → Takes k n x → x.0 ≢ err Error.out_of_fuel
  Takes-ends k n (ok a, r) t q = cc
  Takes-ends k n (err e, r) t q = t (cc)

  -- The decoder ends on every input: fuel above the number of bytes is enough for a value, and
  -- `Decode` has it.
  pub decode_terminates :
      (r : Bytes)
      → ((fuel : ℕ) → length r < fuel → (decode_value {Int = Int} fuel r).0 ≢ err Error.out_of_fuel)
        × ((decode {Int = Int} r).0 ≢ err Error.out_of_fuel)
  unfolding decode
  decode_terminates r =
      let ends : (fuel : ℕ)
          → length r < fuel
          → (decode_value {Int = Int} fuel r).0 ≢ err Error.out_of_fuel =
        λ fuel h. Takes-ends 0 (length r) (decode_value fuel r) (decode_value-Takes fuel r h) in
      (ends, ends (suc (length r)) (omega arith))
