-- ===== src/Base/Word.antt =====
-- The fixed-width unsigned integers of C as native numbers: casts, shifts, masks of low bits,
-- and single bits. A signed value is kept as its two's-complement pattern.
use Prim.Native.Nat.{ℕ, ◌+◌, ◌-◌, ◌*◌, ◌/◌, ◌%◌, ◌^◌}
use mathlib.Core.Bool.{Bool}
use novium_emulator.Base.Tests.{ltb, ◌==◌, if◌then◌else◌}

abbrev pub u8 : ℕ → ℕ
u8 n = n % 2 ^ 8

abbrev pub u16 : ℕ → ℕ
u16 n = n % 2 ^ 16

abbrev pub u32 : ℕ → ℕ
u32 n = n % 2 ^ 32

abbrev pub u64 : ℕ → ℕ
u64 n = n % 2 ^ 64

-- x >> k, and x << k before the result is cut to its width.
infixl 75 ◌<<<◌ ◌>>>◌
abbrev pub ◌<<<◌ : ℕ → ℕ → ℕ
x <<< k = x * 2 ^ k

abbrev pub ◌>>>◌ : ℕ → ℕ → ℕ
x >>> k = x / 2 ^ k

-- x & ((1 << k) - 1)
abbrev pub low_bits : ℕ → ℕ → ℕ
low_bits x k = x % 2 ^ k

-- (x >> k) & 1
abbrev pub bit_at : ℕ → ℕ → ℕ
bit_at x k = x / 2 ^ k % 2

-- (x & (1 << k)) != 0
abbrev pub test_bit : ℕ → ℕ → Bool
test_bit x k = bit_at x k == 1

-- x & ~(1 << k)
abbrev pub clear_bit : ℕ → ℕ → ℕ
clear_bit x k = x - bit_at x k * 2 ^ k

-- x | (1 << k)
abbrev pub set_bit : ℕ → ℕ → ℕ
set_bit x k = clear_bit x k + 2 ^ k

-- uint32_t a + b, a - b, a * b. `-` on ℕ stops at 0, so the modulus is added first.
abbrev pub add32 : ℕ → ℕ → ℕ
add32 a b = u32 (a + b)

abbrev pub sub32 : ℕ → ℕ → ℕ
sub32 a b = u32 (a + 2 ^ 32 - b)

abbrev pub mul32 : ℕ → ℕ → ℕ
mul32 a b = u32 (a * b)

-- static_cast<int16_t>(x) widened to 32 bits, as a pattern.
abbrev pub sext16 : ℕ → ℕ
sext16 x = if ltb x (2 ^ 15) then x else x + (2 ^ 32 - 2 ^ 16)

-- static_cast<int32_t>(x) < 0
abbrev pub negative32 : ℕ → Bool
negative32 x = test_bit x 31
