-- ===== src/Base/Word.antt =====
-- Machine words as native numbers: casts, shifts and the wrap-around of the fixed widths.
use Prim.Native.Nat.{ℕ, ◌-◌, ◌*◌, ◌/◌, ◌%◌, ◌^◌, bit_or}

abbrev pub u8 : ℕ → ℕ
u8 n = n % 2 ^ 8

abbrev pub u16 : ℕ → ℕ
u16 n = n % 2 ^ 16

abbrev pub u32 : ℕ → ℕ
u32 n = n % 2 ^ 32

abbrev pub u64 : ℕ → ℕ
u64 n = n % 2 ^ 64

-- `x >> k`, and `x << k` before the wrap to the width of the result.
infixl 75 ◌<<<◌ ◌>>>◌
abbrev pub ◌<<<◌ : ℕ → ℕ → ℕ
x <<< k = x * 2 ^ k

abbrev pub ◌>>>◌ : ℕ → ℕ → ℕ
x >>> k = x / 2 ^ k

-- `(x << k) | (x >> (64 - k))` on `uint64_t`.
abbrev pub rotl64 : ℕ → ℕ → ℕ
rotl64 x k = bit_or (u64 (x <<< k)) (x >>> (64 - k))
