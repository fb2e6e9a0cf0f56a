-- ===== src/Rtmp/Bytes.antt =====
-- Integers as bytes, as encoding/binary and the shifts of chunk.go write and read them. A sum of
-- bytes at their places stands for the `|` of the shifted bytes, whose bits are disjoint.
use zenlive.Common.{ℕ, ◌+◌, ◌*◌, ◌/◌, ◌%◌, ◌^◌, ◌<◌, ◌≡◌, List, [], ◌∷◌, arith}

-- `byte(v)`
abbrev pub byte : ℕ → ℕ
byte v = v % 256

-- A big-endian read of 2, 3 or 4 bytes.
abbrev pub be16 : ℕ → ℕ → ℕ
be16 b0 b1 = b0 * 256 + b1

abbrev pub be24 : ℕ → ℕ → ℕ → ℕ
be24 b0 b1 b2 = b0 * 65536 + b1 * 256 + b2

abbrev pub be32 : ℕ → ℕ → ℕ → ℕ → ℕ
be32 b0 b1 b2 b3 = b0 * 16777216 + b1 * 65536 + b2 * 256 + b3

abbrev pub le32 : ℕ → ℕ → ℕ → ℕ → ℕ
le32 b0 b1 b2 b3 = b0 + b1 * 256 + b2 * 65536 + b3 * 16777216

-- The bytes of a number, most significant first (`put_le32`: last).
abbrev pub put_be16 : ℕ → List ℕ
put_be16 v = byte (v / 256) ∷ byte v ∷ []

abbrev pub put_be24 : ℕ → List ℕ
put_be24 v = byte (v / 65536) ∷ byte (v / 256) ∷ byte v ∷ []

abbrev pub put_be32 : ℕ → List ℕ
put_be32 v = byte (v / 16777216) ∷ byte (v / 65536) ∷ byte (v / 256) ∷ byte v ∷ []

abbrev pub put_le32 : ℕ → List ℕ
put_le32 v = byte v ∷ byte (v / 256) ∷ byte (v / 65536) ∷ byte (v / 16777216) ∷ []

pub be16-put : (v : ℕ) → v < 2 ^ 16 → be16 (byte (v / 256)) (byte v) ≡ v
be16-put v h = omega arith

pub be24-put : (v : ℕ) → v < 2 ^ 24 → be24 (byte (v / 65536)) (byte (v / 256)) (byte v) ≡ v
be24-put v h = omega arith

pub be32-put :
    (v : ℕ)
    → v < 2 ^ 32
    → be32 (byte (v / 16777216)) (byte (v / 65536)) (byte (v / 256)) (byte v) ≡ v
be32-put v h = omega arith

pub le32-put :
    (v : ℕ)
    → v < 2 ^ 32
    → le32 (byte v) (byte (v / 256)) (byte (v / 65536)) (byte (v / 16777216)) ≡ v
le32-put v h = omega arith
