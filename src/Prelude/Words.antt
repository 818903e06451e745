-- ===== src/Prelude/Words.antt =====
-- Machine words as native numbers: `u8`, `u16` and `u32` arithmetic wraps by `%`.
-- The types are those of types.h; multi-byte fields are big endian on the wire.
use Prim.Native.Nat.{ℕ, ◌+◌, ◌-◌, ◌*◌, ◌%◌, ◌^◌, ◌<◌}
use mathlib.Core.Path.{◌≡◌}
use native.Mathlib.Omega.{arith}

abbrev pub IsByte : ℕ → Type 0
IsByte b = b < 256

abbrev pub IsU32 : ℕ → Type 0
IsU32 v = v < 2 ^ 32

-- `u32` addition, and negation as C computes it.
abbrev pub add32 : ℕ → ℕ → ℕ
add32 a b = (a + b) % 2 ^ 32

abbrev pub neg32 : ℕ → ℕ
neg32 a = (2 ^ 32 - a % 2 ^ 32) % 2 ^ 32

-- What `ntohs` and `ntohl` make of the bytes of a field.
abbrev pub be16 : ℕ → ℕ → ℕ
be16 hi lo = hi * 256 + lo

abbrev pub be32 : ℕ → ℕ → ℕ → ℕ → ℕ
be32 a b c d = ((a * 256 + b) * 256 + c) * 256 + d

pub add32_assoc : (a b c : ℕ) → add32 (add32 a b) c ≡ add32 a (add32 b c)
add32_assoc a b c = omega arith

pub add32-neg32 : (a b : ℕ) → IsU32 a → add32 (add32 a b) (neg32 b) ≡ a
add32-neg32 a b h = omega arith
