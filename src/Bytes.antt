-- ===== src/Bytes.antt =====
-- agent/include/tracefox.h, the big-endian writers over a payload buffer, and the integers that the
-- server's `struct.unpack` and `int.from_bytes` read from such bytes.
use trace_fox.Base.{ℕ, ◌+◌, ◌*◌, ◌/◌, ◌%◌, ◌^◌, ◌<◌, ◌≡◌, List, [], ◌∷◌, ◌++◌, arith}

abbrev pub IsByte : ℕ → Type 0
IsByte b = b < 2 ^ 8

abbrev pub IsU16 : ℕ → Type 0
IsU16 v = v < 2 ^ 16

abbrev pub IsU32 : ℕ → Type 0
IsU32 v = v < 2 ^ 32

abbrev pub IsU64 : ℕ → Type 0
IsU64 v = v < 2 ^ 64

-- `(uint8_t)x`, which is also `x & TF_BYTE_MASK`.
abbrev pub byte : ℕ → ℕ
byte x = x % 2 ^ 8

-- The big-endian images of a word of two, four and eight bytes.
abbrev pub be16 : ℕ → List ℕ
be16 v = byte (v / 2 ^ 8) ∷ byte v ∷ []

abbrev pub be32 : ℕ → List ℕ
be32 v = byte (v / 2 ^ 24) ∷ byte (v / 2 ^ 16) ∷ byte (v / 2 ^ 8) ∷ byte v ∷ []

abbrev pub be64 : ℕ → List ℕ
be64 v =
    byte (v / 2 ^ 56)
    ∷ byte (v / 2 ^ 48)
    ∷ byte (v / 2 ^ 40)
    ∷ byte (v / 2 ^ 32)
    ∷ byte (v / 2 ^ 24)
    ∷ byte (v / 2 ^ 16)
    ∷ byte (v / 2 ^ 8)
    ∷ byte v
    ∷ []

-- The cursor is modelled by the bytes written so far: each `*(*cursor)++ = b` appends one.
unfoldable pub buf_put_be_u16 : List ℕ → ℕ → List ℕ
buf_put_be_u16 cursor val = cursor ++ be16 val

unfoldable pub buf_put_be_u32 : List ℕ → ℕ → List ℕ
buf_put_be_u32 cursor val = cursor ++ be32 val

unfoldable pub buf_put_be_u64 : List ℕ → ℕ → List ℕ
buf_put_be_u64 cursor val = cursor ++ be64 val

-- The value of bytes, most significant first, behind an accumulator.
abbrev pub from_be_acc : ℕ → List ℕ → ℕ
from_be_acc acc [] = acc
from_be_acc acc (b ∷ bs) = from_be_acc (acc * 256 + b) bs

unfoldable pub from_be : List ℕ → ℕ
from_be bs = from_be_acc 0 bs

pub from_be-be16 : (v : ℕ) → IsU16 v → from_be (be16 v) ≡ v
unfolding from_be
from_be-be16 v h = omega arith

pub from_be-be32 : (v : ℕ) → IsU32 v → from_be (be32 v) ≡ v
unfolding from_be
from_be-be32 v h = omega arith

pub from_be-be64 : (v : ℕ) → IsU64 v → from_be (be64 v) ≡ v
unfolding from_be
from_be-be64 v h = omega arith
