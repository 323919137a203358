-- ===== src/Base/Bits.antt =====
-- Laws of the bit operations at variables, by induction on the width.
use Prim.Native.Nat.{ℕ, zero, suc, ◌+◌, ◌*◌, ◌/◌, ◌%◌, ◌^◌, ◌<◌, differ}
use Prim.Native.Nat.{bit_and, bit_or, bit_xor}
use mathlib.Core.Path.{◌≡◌, refl, ap, ◌∙◌}
use native.Mathlib.Nat.{pow-suc}
use native.Mathlib.Omega.{arith}
use projet_s5_prog.Base.Digits.{bit_and_digit, bit_or_digit, bit_xor_digit}

-- What a width of one more digit does to a number that is split at `k`.
two_pow : (q k : ℕ) → q * 2 ^ suc k ≡ 2 * (q * 2 ^ k)
two_pow q k = omega (arith, ap (λ (t : ℕ). q * t) (pow-suc 2 k))

half_split : (q k r : ℕ) → (q * 2 ^ suc k + r) / 2 ≡ q * 2 ^ k + r / 2
half_split q k r = omega (arith, two_pow q k)

odd_split : (q k r : ℕ) → (q * 2 ^ suc k + r) % 2 ≡ r % 2
odd_split q k r = omega (arith, two_pow q k)

half-lt : (k r : ℕ) → r < 2 ^ suc k → r / 2 < 2 ^ k
half-lt k r h = omega (arith, pow-suc 2 k)

-- At width 0 nothing is below the split.
unit_split : (a r : ℕ) → r < 2 ^ zero → a * 2 ^ zero + r ≡ a
unit_split a r h = omega arith

below_one : (r : ℕ) → r < 2 ^ zero → r ≡ 0
below_one r h = omega arith

pub bit_or_split :
    (k a b r s : ℕ)
    → r < 2 ^ k
    → s < 2 ^ k
    → bit_or (a * 2 ^ k + r) (b * 2 ^ k + s) ≡ bit_or a b * 2 ^ k + bit_or r s
bit_or_split zero a b r s hr hs =
    rw (unit_split a r hr, unit_split b s hs, below_one r hr, below_one s hs) (omega arith)
bit_or_split (suc k) a b r s hr hs =
    rw
      (
        bit_or_digit (a * 2 ^ suc k + r) (b * 2 ^ suc k + s),
        half_split a k r,
        half_split b k s,
        odd_split a k r,
        odd_split b k s,
        bit_or_split k a b (r / 2) (s / 2) (half-lt k r hr) (half-lt k s hs),
        bit_or_digit r s,
      )
      (omega (arith, two_pow (bit_or a b) k))

pub bit_and_split :
    (k a b r s : ℕ)
    → r < 2 ^ k
    → s < 2 ^ k
    → bit_and (a * 2 ^ k + r) (b * 2 ^ k + s) ≡ bit_and a b * 2 ^ k + bit_and r s
bit_and_split zero a b r s hr hs =
    rw (unit_split a r hr, unit_split b s hs, below_one r hr, below_one s hs) (omega arith)
bit_and_split (suc k) a b r s hr hs =
    rw
      (
        bit_and_digit (a * 2 ^ suc k + r) (b * 2 ^ suc k + s),
        half_split a k r,
        half_split b k s,
        odd_split a k r,
        odd_split b k s,
        bit_and_split k a b (r / 2) (s / 2) (half-lt k r hr) (half-lt k s hs),
        bit_and_digit r s,
      )
      (omega (arith, two_pow (bit_and a b) k))

pub bit_xor_split :
    (k a b r s : ℕ)
    → r < 2 ^ k
    → s < 2 ^ k
    → bit_xor (a * 2 ^ k + r) (b * 2 ^ k + s) ≡ bit_xor a b * 2 ^ k + bit_xor r s
bit_xor_split zero a b r s hr hs =
    rw (unit_split a r hr, unit_split b s hs, below_one r hr, below_one s hs) (omega arith)
bit_xor_split (suc k) a b r s hr hs =
    rw
      (
        bit_xor_digit (a * 2 ^ suc k + r) (b * 2 ^ suc k + s),
        half_split a k r,
        half_split b k s,
        odd_split a k r,
        odd_split b k s,
        bit_xor_split k a b (r / 2) (s / 2) (half-lt k r hr) (half-lt k s hs),
        bit_xor_digit r s,
      )
      (omega (arith, two_pow (bit_xor a b) k))

-- A result of two `k`-digit numbers has `k` digits.
differ_bit : (x y : ℕ) → x < 2 → y < 2 → differ x y < 2
differ_bit zero y hx hy = hy
differ_bit (suc zero) zero hx hy = omega arith
differ_bit (suc zero) (suc zero) hx hy = omega arith
differ_bit (suc zero) (suc (suc y)) hx hy = absurd (omega arith)
differ_bit (suc (suc x)) y hx hy = absurd (omega arith)

pub bit_or-lt : (k a b : ℕ) → a < 2 ^ k → b < 2 ^ k → bit_or a b < 2 ^ k
bit_or-lt zero a b ha hb = rw (below_one a ha, below_one b hb) (omega arith)
bit_or-lt (suc k) a b ha hb = omega (
  arith,
  bit_or_digit a b,
  bit_or-lt k (a / 2) (b / 2) (half-lt k a ha) (half-lt k b hb),
  pow-suc 2 k,
)

pub bit_and-lt : (k a b : ℕ) → a < 2 ^ k → b < 2 ^ k → bit_and a b < 2 ^ k
bit_and-lt zero a b ha hb = rw (below_one a ha, below_one b hb) (omega arith)
bit_and-lt (suc k) a b ha hb = omega (
  arith,
  bit_and_digit a b,
  bit_and-lt k (a / 2) (b / 2) (half-lt k a ha) (half-lt k b hb),
  pow-suc 2 k,
)

pub bit_xor-lt : (k a b : ℕ) → a < 2 ^ k → b < 2 ^ k → bit_xor a b < 2 ^ k
bit_xor-lt zero a b ha hb = rw (below_one a ha, below_one b hb) (omega arith)
bit_xor-lt (suc k) a b ha hb = omega (
  arith,
  bit_xor_digit a b,
  bit_xor-lt k (a / 2) (b / 2) (half-lt k a ha) (half-lt k b hb),
  pow-suc 2 k,
  differ_bit (a % 2) (b % 2) (omega arith) (omega arith),
)

differ_twice : (a b : ℕ) → a < 2 → b < 2 → differ (differ a b) b ≡ a
differ_twice zero zero h k = refl
differ_twice zero (suc zero) h k = refl
differ_twice (suc zero) zero h k = refl
differ_twice (suc zero) (suc zero) h k = refl
differ_twice a (suc (suc b)) h k = absurd (omega arith)
differ_twice (suc (suc a)) b h k = absurd (omega arith)

bit_xor_half : (a b : ℕ) → bit_xor a b / 2 ≡ bit_xor (a / 2) (b / 2)
bit_xor_half a b =
    omega (arith, bit_xor_digit a b, differ_bit (a % 2) (b % 2) (omega arith) (omega arith))

bit_xor_low : (a b : ℕ) → bit_xor a b % 2 ≡ differ (a % 2) (b % 2)
bit_xor_low a b =
    omega (arith, bit_xor_digit a b, differ_bit (a % 2) (b % 2) (omega arith) (omega arith))

-- Flipping the same bits twice changes nothing.
pub bit_xor_twice : (k a b : ℕ) → a < 2 ^ k → b < 2 ^ k → bit_xor (bit_xor a b) b ≡ a
bit_xor_twice zero a b ha hb = rw (below_one a ha, below_one b hb) refl
bit_xor_twice (suc k) a b ha hb =
    bit_xor_digit (bit_xor a b) b
    ∙ rw
        (
          bit_xor_half a b,
          bit_xor_low a b,
          bit_xor_twice k (a / 2) (b / 2) (half-lt k a ha) (half-lt k b hb),
          differ_twice (a % 2) (b % 2) (omega arith) (omega arith),
        )
        (omega arith)
