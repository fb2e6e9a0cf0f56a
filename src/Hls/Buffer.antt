-- ===== src/Hls/Buffer.antt =====
-- The `bytes.Buffer` of Go's library, as pkg/streaming/hls/segment.go uses it: the bytes written,
-- and the bytes of the array behind them, which `buf.Bytes()[buf.Len():buf.Len()+n]` reaches. How
-- much room a growth leaves is the library's, and a parameter.
use zenlive.Common.{
  ℕ, ◌+◌, ◌≤◌, ◌≡◌, refl, List, [], ◌∷◌, ◌++◌, Option, none, some, leb, if◌then◌else◌, length, drop,
  length-append, length-drop, arith,
}

pub record Buffer : Type 0 where
  pub content : List ℕ
  pub spare : List ℕ

-- `&bytes.Buffer{}`
unfoldable pub empty_buffer : Buffer
empty_buffer = record { content = []; spare = [] }

-- `none` is a panic.
infixl 5 ◌>>=◌
abbrev pub ◌>>=◌ {ℓ κ} : {A : Type ℓ} {B : Type κ} → Option A → (A → Option B) → Option B
none >>= f = none
some a >>= f = f a

-- Inversion of a step that did not fail.
pub >>=-eq-some {ℓ κ} :
    {A : Type ℓ} {B : Type κ} (m : Option A) (f : A → Option B) {b : B}
    → (m >>= f) ≡ some b
    → (a : A) × (m ≡ some a) × (f a ≡ some b)
>>=-eq-some none f h = cc
>>=-eq-some (some a) f h = (a, refl, h)

-- What `grown n` gives is the array behind the `n` bytes of a buffer that has just grown.
module _ (grown : ℕ → List ℕ) where
  -- `buf.Write(p)`, and `buf.WriteByte(c)` for one byte.
  unfoldable pub write : List ℕ → Buffer → Buffer
  write p b =
      if leb (length p) (length b.spare)
      then record { content = b.content ++ p; spare = drop (length p) b.spare }
      else record { content = b.content ++ p; spare = grown (length (b.content ++ p)) }

  -- A write into `buf.Bytes()[buf.Len():buf.Len()+n]`: behind the content, or a panic where the
  -- array ends.
  unfoldable pub put_behind : List ℕ → Buffer → Option Buffer
  put_behind p b =
      if leb (length p) (length b.spare)
      then some (record b { spare = p ++ drop (length p) b.spare })
      else none

  -- The first array of a buffer has 64 bytes, and no array is smaller.
  abbrev pub IsRoomy : Type 0
  IsRoomy = (n : ℕ) → 64 ≤ n + length (grown n)

  -- The buffer holds these bytes, with the room that its array has.
  abbrev pub Has : List ℕ → Buffer → Type 0
  Has bs b = (b.content ≡ bs) × (64 ≤ length b.content + length b.spare)

  -- The operation does not panic, and leaves a buffer that holds these bytes.
  abbrev pub Holds : List ℕ → Option Buffer → Type 0
  Holds bs r = (b : Buffer) × (r ≡ some b) × Has bs b

  pub write-Has_first : (c : ℕ) → IsRoomy → Has (c ∷ []) (write (c ∷ []) empty_buffer)
  unfolding write empty_buffer
  write-Has_first c roomy = ground (arith, roomy 1)

  pub write-Has : (bs p : List ℕ) (b : Buffer) → IsRoomy → Has bs b → Has (bs ++ p) (write p b)
  unfolding write
  write-Has bs p b roomy h = ground (
    arith,
    roomy (length (b.content ++ p)),
    length-append {0} b.content p,
    length-drop {0} (length p) b.spare,
  )

  pub put_behind-Holds :
      (bs p : List ℕ) (b : Buffer)
      → Has bs b
      → length bs + length p ≤ 64
      → Holds bs (put_behind p b)
  unfolding put_behind
  put_behind-Holds bs p b h fits = (
    record b { spare = p ++ drop (length p) b.spare },
    ground arith,
    (
      h.0,
      ground (
        arith,
        length-append {0} p (drop (length p) b.spare),
        length-drop {0} (length p) b.spare,
      ),
    ),
  )
