-- ===== src/Prelude/Words.antt =====
-- Unsigned machine words as native numbers: each conversion to a word wraps.
use Prim.Native.Nat.{ℕ, ◌+◌, ◌*◌, ◌/◌, ◌%◌, ◌<◌}
use mathlib.Core.Path.{◌≡◌}
use mathlib.Core.List.{List, [], ◌∷◌}
use native.Mathlib.Omega.{arith}

abbrev pub u8 : ℕ → ℕ
u8 n = n % 256

abbrev pub u16 : ℕ → ℕ
u16 n = n % 65536

abbrev pub u32 : ℕ → ℕ
u32 n = n % 4294967296

-- The bytes of a number, lowest first: `CO_memcpySwap2` and `CO_memcpySwap4` between a variable and
-- the bytes of a CAN message, `CO_setUint32`.
abbrev pub le16 : ℕ → List ℕ
le16 n = n % 256 ∷ n / 256 % 256 ∷ []

abbrev pub le32 : ℕ → List ℕ
le32 n = n % 256 ∷ n / 256 % 256 ∷ n / 65536 % 256 ∷ n / 16777216 % 256 ∷ []

-- The number of four bytes, lowest first: `CO_getUint32`.
abbrev pub of_le32 : ℕ → ℕ → ℕ → ℕ → ℕ
of_le32 a b c d = a + b * 256 + c * 65536 + d * 16777216

pub of_le32-le32 :
    (n : ℕ)
    → n < 4294967296
    → of_le32 (n % 256) (n / 256 % 256) (n / 65536 % 256) (n / 16777216 % 256) ≡ n
of_le32-le32 n h = omega arith
