-- ===== src/Base/Mask.antt =====
-- Masks and fields as arithmetic: `|` of disjoint fields is a sum, `&` with a mask a remainder.
use Prim.Native.Nat.{ℕ, zero, suc, ◌+◌, ◌-◌, ◌*◌, ◌/◌, ◌%◌, ◌^◌, ◌≤◌, ◌<◌, bit_and, bit_or}
use Prim.Native.Nat.{bit_and-bitwise, bit_or-bitwise}
use mathlib.Core.Path.{◌≡◌, refl}
use native.Mathlib.Nat.{pow-suc, one-le-pow}
use native.Mathlib.Omega.{arith}
use projet_s5_prog.Base.Digits.{bit_and_digit, bit_or_digit}
use projet_s5_prog.Base.Bits.{bit_and_split, bit_or_split}

-- `n` bounds the number, as the recursion goes from `a` to `a / 2`.
bit_or-zero_upto : (n a : ℕ) → a ≤ n → bit_or a 0 ≡ a
bit_or-zero_upto n zero h = refl
bit_or-zero_upto zero (suc a) h = absurd (omega arith)
bit_or-zero_upto (suc n) (suc a) h =
    omega (arith, bit_or_digit (suc a) 0, bit_or-zero_upto n (suc a / 2) (omega arith))

bit_and-zero_upto : (n a : ℕ) → a ≤ n → bit_and a 0 ≡ 0
bit_and-zero_upto n zero h = refl
bit_and-zero_upto zero (suc a) h = absurd (omega arith)
bit_and-zero_upto (suc n) (suc a) h =
    omega (arith, bit_and_digit (suc a) 0, bit_and-zero_upto n (suc a / 2) (omega arith))

pub bit_or-zero : (a : ℕ) → bit_or a 0 ≡ a
bit_or-zero a = bit_or-zero_upto a a (omega arith)

pub bit_and-zero : (a : ℕ) → bit_and a 0 ≡ 0
bit_and-zero a = bit_and-zero_upto a a (omega arith)

pub zero-bit_or : (a : ℕ) → bit_or 0 a ≡ a
zero-bit_or a = bit_or-bitwise 0 a

pub zero-bit_and : (a : ℕ) → bit_and 0 a ≡ 0
zero-bit_and a = bit_and-bitwise 0 a

-- `(q << k) | r` where `r` has `k` bits, in either order
pub bit_or_fields : (k q r : ℕ) → r < 2 ^ k → bit_or (q * 2 ^ k) r ≡ q * 2 ^ k + r
bit_or_fields k q r h = ground (
  arith,
  one-le-pow k 2,
  bit_or_split k q 0 0 r (one-le-pow k 2 (omega arith)) h,
  bit_or-zero q,
  zero-bit_or r,
)

pub bit_or_fields_swap : (k q r : ℕ) → r < 2 ^ k → bit_or r (q * 2 ^ k) ≡ q * 2 ^ k + r
bit_or_fields_swap k q r h =
    ground
      (arith, bit_or_split k 0 q r 0 h (one-le-pow k 2 (omega arith)), bit_or-zero r, zero-bit_or q)

bit_and_ones : (k r : ℕ) → r < 2 ^ k → bit_and r (2 ^ k - 1) ≡ r
bit_and_ones zero r h = omega (arith, bit_and-zero r)
bit_and_ones (suc k) r h = ground (
  arith,
  bit_and_digit r (2 ^ suc k - 1),
  pow-suc 2 k,
  one-le-pow k 2 (omega arith),
  bit_and_ones k (r / 2) (omega (arith, pow-suc 2 k)),
)

-- `a & ((1 << k) - 1)`
pub bit_and_mask : (k a : ℕ) → bit_and a (2 ^ k - 1) ≡ a % 2 ^ k
bit_and_mask k a = ground (
  arith,
  one-le-pow k 2 (omega arith),
  bit_and_split k (a / 2 ^ k) 0 (a % 2 ^ k) (2 ^ k - 1),
  bit_and-zero (a / 2 ^ k),
  bit_and_ones k (a % 2 ^ k),
)

-- Nothing is left where the bits of one are all below those of the other.
pub bit_and_disjoint : (k a b : ℕ) → a < 2 ^ k → bit_and a (b * 2 ^ k) ≡ 0
bit_and_disjoint k a b h = ground (
  arith,
  bit_and_split k 0 b a 0 h (one-le-pow k 2 (omega arith)),
  bit_and-zero a,
  zero-bit_and b,
)

-- `x & 0xFFFFFFFE`, `x & 0xFFFFFFFD` and `x & 0xFFFFFFDF`
pub clear_bit_zero : (x : ℕ) → x < 2 ^ 32 → bit_and x 0xFFFF_FFFE ≡ x / 2 * 2
clear_bit_zero x h = omega (arith, bit_and_digit x 0xFFFF_FFFE, bit_and_mask 31 (x / 2))

pub clear_bit_one : (x : ℕ) → x < 2 ^ 32 → bit_and x 0xFFFF_FFFD ≡ x / 4 * 4 + x % 2
clear_bit_one x h = omega (arith, bit_and_digit x 0xFFFF_FFFD, clear_bit_half (x / 2) (omega arith))
  where
    clear_bit_half : (y : ℕ) → y < 2 ^ 31 → bit_and y 0x7FFF_FFFE ≡ y / 2 * 2
    clear_bit_half y b = omega (arith, bit_and_digit y 0x7FFF_FFFE, bit_and_mask 30 (y / 2))

pub clear_bit_five : (x : ℕ) → x < 2 ^ 32 → bit_and x 0xFFFF_FFDF ≡ x / 64 * 64 + x % 32
clear_bit_five x h = ground (
  arith,
  bit_and_split 6 (x / 64) 0x3FF_FFFF (x % 64) 31 (omega arith) (omega arith),
  bit_and_mask 26 (x / 64),
  bit_and_mask 5 (x % 64),
)
