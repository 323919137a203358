-- ===== src/Base/OneBit.antt =====
-- The bit operations, one bit at a time.
use Prim.Native.Nat.{
  ℕ, zero, suc, ◌+◌, ◌-◌, ◌*◌, ◌/◌, ◌%◌, ◌^◌, ◌<◌, min, max, differ, bit_and, bit_or, bit_xor,
}
use mathlib.Core.Path.{◌≡◌, ap, ◌∙◌, sym}
use native.Mathlib.Omega.{arith}
use native.Mathlib.Nat.{pow-suc, div-div-eq-div-mul, mul_comm}
use projet_s5_prog.Base.Digits.{bit_and_digit, bit_or_digit, bit_xor_digit}

halved : (x i : ℕ) → x / 2 ^ suc i ≡ x / 2 / 2 ^ i
halved x i =
    ap (λ (t : ℕ). x / t) (pow-suc 2 i ∙ mul_comm (2 ^ i) 2) ∙ sym (div-div-eq-div-mul x 2 (2 ^ i))

module _ (op f : ℕ → ℕ → ℕ)
    (digit : (a b : ℕ) → op a b ≡ op (a / 2) (b / 2) * 2 + f (a % 2) (b % 2))
    (small : (a b : ℕ) → a < 2 → b < 2 → f a b < 2) where
  whole : (x : ℕ) → x / 2 ^ 0 ≡ x
  whole x = omega arith

  lowest : (a b : ℕ) → op a b % 2 ≡ f (a % 2) (b % 2)
  lowest a b = omega (arith, digit a b, small (a % 2) (b % 2) (omega arith) (omega arith))

  rest : (a b : ℕ) → op a b / 2 ≡ op (a / 2) (b / 2)
  rest a b = omega (arith, digit a b, small (a % 2) (b % 2) (omega arith) (omega arith))

  bit_of : (i a b : ℕ) → op a b / 2 ^ i % 2 ≡ f (a / 2 ^ i % 2) (b / 2 ^ i % 2)
  bit_of zero a b = rw (whole (op a b), whole a, whole b) (lowest a b)
  bit_of (suc i) a b =
      rw (halved (op a b) i, halved a i, halved b i, rest a b) (bit_of i (a / 2) (b / 2))

min-small : (a b : ℕ) → a < 2 → b < 2 → min a b < 2
min-small a b h k = omega arith

max-small : (a b : ℕ) → a < 2 → b < 2 → max a b < 2
max-small a b h k = omega arith

differ-small : (a b : ℕ) → a < 2 → b < 2 → differ a b < 2
differ-small zero b h k = k
differ-small (suc a) zero h k = h
differ-small (suc zero) (suc zero) h k = omega arith
differ-small (suc zero) (suc (suc b)) h k = absurd (omega arith)
differ-small (suc (suc a)) (suc b) h k = absurd (omega arith)

pub bit_and-bit : (i a b : ℕ) → bit_and a b / 2 ^ i % 2 ≡ min (a / 2 ^ i % 2) (b / 2 ^ i % 2)
bit_and-bit = bit_of bit_and min bit_and_digit min-small

pub bit_or-bit : (i a b : ℕ) → bit_or a b / 2 ^ i % 2 ≡ max (a / 2 ^ i % 2) (b / 2 ^ i % 2)
bit_or-bit = bit_of bit_or max bit_or_digit max-small

pub bit_xor-bit : (i a b : ℕ) → bit_xor a b / 2 ^ i % 2 ≡ differ (a / 2 ^ i % 2) (b / 2 ^ i % 2)
bit_xor-bit = bit_of bit_xor differ bit_xor_digit differ-small

-- the complement of a number of k digits
pub complement-bit :
    (i k x : ℕ) → x < 2 ^ k → i < k → (2 ^ k - 1 - x) / 2 ^ i % 2 ≡ 1 - x / 2 ^ i % 2
complement-bit i zero x h l = absurd (omega arith)
complement-bit zero (suc k) x h l = omega (arith, pow-suc 2 k)
complement-bit (suc i) (suc k) x h l =
    let next : (2 ^ suc k - 1 - x) / 2 ≡ 2 ^ k - 1 - x / 2 = omega (arith, pow-suc 2 k) in
    rw (halved (2 ^ suc k - 1 - x) i, halved x i, next)
      (complement-bit i k (x / 2) (omega (arith, pow-suc 2 k)) (omega arith))
