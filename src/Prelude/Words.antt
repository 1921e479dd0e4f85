-- ===== src/Prelude/Words.antt =====
-- Fixed-width integers of C as native numbers, and the bytes of a 32-bit word in memory.
-- The host is little-endian, as on every platform that the program is packaged for: `htobe32`
-- and `be32toh` swap the bytes of a word.
use Prim.Native.Nat.{ℕ, ◌+◌, ◌*◌, ◌/◌, ◌%◌, ◌^◌}
use mathlib.Core.List.{List, [], ◌∷◌}
use overwitch.Prelude.Tests.{ltb, if◌then◌else◌}

abbrev pub u8 : ℕ → ℕ
u8 n = n % 2 ^ 8

abbrev pub u16 : ℕ → ℕ
u16 n = n % 2 ^ 16

abbrev pub u32 : ℕ → ℕ
u32 n = n % 2 ^ 32

-- The four bytes of a word in the order in which they lie in memory.
abbrev pub word_bytes : ℕ → List ℕ
word_bytes w = w % 256 ∷ w / 256 % 256 ∷ w / 65536 % 256 ∷ w / 16777216 % 256 ∷ []

-- The word that a four-byte object holds. It is read only at lists of four bytes.
abbrev pub word_of_bytes : List ℕ → ℕ
word_of_bytes (a ∷ b ∷ c ∷ d ∷ []) = a + 256 * b + 65536 * c + 16777216 * d
word_of_bytes _ = 0

-- `htobe32` and `be32toh`.
unfoldable pub swap32 : ℕ → ℕ
swap32 w =
    16777216 * (w % 256) + 65536 * (w / 256 % 256) + 256 * (w / 65536 % 256) + w / 16777216 % 256

-- `htobe16`
unfoldable pub swap16 : ℕ → ℕ
swap16 w = 256 * (w % 256) + w / 256 % 256

-- `>>= 8` on an `int32_t`: the sign bit comes in from the left.
unfoldable pub sar8 : ℕ → ℕ
sar8 w = if ltb w (2 ^ 31) then w / 256 else w / 256 + 0xff00_0000
