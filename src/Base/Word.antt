-- ===== src/Base/Word.antt =====
-- `uint32_t` as numbers below 2 ^ 32, and `int32_t` as the bit pattern of its two's complement.
-- Where a signed sum or difference overflows, C leaves the result open: it is taken modulo
-- 2 ^ 32, as the machine instruction that it is compiled to computes it.
use Prim.Native.Nat.{ℕ, ◌+◌, ◌-◌, ◌*◌, ◌/◌, ◌%◌, ◌^◌}
use mathlib.Core.Bool.{Bool, not}
use projet_s5_prog.Base.Test.{ltb}

abbrev pub word : ℕ
word = 2 ^ 32

abbrev pub u8 : ℕ → ℕ
u8 x = x % 2 ^ 8

abbrev pub u16 : ℕ → ℕ
u16 x = x % 2 ^ 16

abbrev pub u32 : ℕ → ℕ
u32 x = x % 2 ^ 32

abbrev pub add32 : ℕ → ℕ → ℕ
add32 a b = (a + b) % 2 ^ 32

-- `-` on ℕ stops at 0, so the modulus is added first.
abbrev pub sub32 : ℕ → ℕ → ℕ
sub32 a b = (a + 2 ^ 32 - b % 2 ^ 32) % 2 ^ 32

-- `~x`
abbrev pub not32 : ℕ → ℕ
not32 x = 2 ^ 32 - 1 - x

-- `x << k` and `x >> k` of a `uint32_t`, for k below 32
abbrev pub shl32 : ℕ → ℕ → ℕ
shl32 x k = x * 2 ^ k % 2 ^ 32

abbrev pub shr32 : ℕ → ℕ → ℕ
shr32 x k = x / 2 ^ k

-- `a <= b` of two `int32_t`: shifting by 2 ^ 31 turns the signed order into the unsigned one.
abbrev pub les32 : ℕ → ℕ → Bool
les32 a b = not (ltb ((b + 2 ^ 31) % 2 ^ 32) ((a + 2 ^ 31) % 2 ^ 32))
