-- ===== src/DataProcessing/Serial/Closed.antt =====
-- Where the shift register stands after a number of moves in one direction.
use projet_s5_prog.Base.{
  ℕ, zero, suc, ◌+◌, ◌-◌, ◌*◌, ◌/◌, ◌%◌, ◌^◌, ◌<◌, ◌≤◌, ◌≡◌, sym, ap, ◌∙◌, arith,
}
use projet_s5_prog.Base.{◌==◌, if◌then◌else◌}
use native.Mathlib.Decide.{dec_lt}
use native.Mathlib.Nat.{
  div-le_self, pow-le-pow_right, pow-suc, one-le-pow, div-div-eq-div-mul, mul-div-mul_right,
  le-div_iff_mul-le,
}
use projet_s5_prog.Core.Rotate.{two_pow_add, low_bits}
use projet_s5_prog.DataProcessing.Serial.{left, right, signed_right, times}

-- one more halving
pub div-pow_suc : (x n : ℕ) → x / 2 ^ suc n ≡ x / 2 ^ n / 2
div-pow_suc x n = ap (λ (t : ℕ). x / t) (pow-suc 2 n) ∙ sym (div-div-eq-div-mul x (2 ^ n) 2)

pub right_word : (n x c : ℕ) → (times n right (x, c)).0 ≡ x / 2 ^ n
right_word zero x c = omega arith
right_word (suc n) x c = omega (arith, right_word n x c, div-pow_suc x n)

doubled : (x n : ℕ) → x * 2 ^ suc n ≡ x * 2 ^ n * 2
doubled x n = omega (arith, ap (λ (t : ℕ). x * t) (pow-suc 2 n))

pub left_word : (n x c : ℕ) → x < 2 ^ 32 → (times n left (x, c)).0 ≡ x * 2 ^ n % 2 ^ 32
left_word zero x c h = omega arith
left_word (suc n) x c h = omega (arith, left_word n x c h, doubled x n)

-- the bit that leaves on the left
top_bit : (n x : ℕ) → n < 32 → x * 2 ^ n % 2 ^ 32 / 2 ^ 31 ≡ x / 2 ^ (31 - n) % 2
top_bit n x h = omega (
  arith,
  two_pow_add (31 - n) n 31 (omega arith),
  ap (λ (t : ℕ). x * 2 ^ n / t) (two_pow_add (31 - n) n 31 (omega arith)),
  mul-div-mul_right x (2 ^ (31 - n)) (one-le-pow n 2 (omega arith)),
)

pub left_carry :
    (n x c : ℕ) → x < 2 ^ 32 → n < 32 → (times (suc n) left (x, c)).1 ≡ x / 2 ^ (31 - n) % 2
left_carry n x c h k = omega (arith, left_word n x c h, top_bit n x k)

-- a positive word
pub signed_word_low : (n x c : ℕ) → x < 2 ^ 31 → (times n signed_right (x, c)).0 ≡ x / 2 ^ n
signed_word_low zero x c h = omega arith
signed_word_low (suc n) x c h =
    omega (arith, signed_word_low n x c h, div-pow_suc x n, div-le_self x (2 ^ n))

-- the powers around bit n of a word
module _ (n : ℕ) (h : n < 32) where
  pub pow_next : 2 ^ (32 - n) ≡ 2 ^ (31 - n) * 2
  pow_next =
      let index : 32 - n ≡ suc (31 - n) = omega arith in
      ap (λ (k : ℕ). 2 ^ k) index ∙ pow-suc 2 (31 - n)

  pub pow_same : 2 ^ (32 - suc n) ≡ 2 ^ (31 - n)
  pow_same = let index : 32 - suc n ≡ 31 - n = omega arith in ap (λ (k : ℕ). 2 ^ k) index

  pub pow_below : 2 ^ (31 - n) * 2 ^ n ≡ 2 ^ 31
  pow_below = two_pow_add (31 - n) n 31 (omega arith)

  pow_small : 2 ^ (31 - n) ≤ 2 ^ 31
  pow_small = pow-le-pow_right {n = 2} (omega arith) {i = 31 - n} {j = 31} (omega arith)

  high_quotient : (x : ℕ) → 2 ^ 31 ≤ x → 2 ^ (31 - n) ≤ x / 2 ^ n
  high_quotient x le = (le-div_iff_mul-le (one-le-pow n 2 (omega arith))).1 (rw pow_below le)

-- a negative word
signed_word_high :
    (n x c : ℕ)
    → x < 2 ^ 32
    → 2 ^ 31 ≤ x
    → n ≤ 32
    → (times n signed_right (x, c)).0 ≡ x / 2 ^ n + (2 ^ 32 - 2 ^ (32 - n))
signed_word_high zero x c h le k = omega arith
signed_word_high (suc n) x c h le k = omega (
  arith,
  signed_word_high n x c h le (omega arith),
  div-pow_suc x n,
  pow_next n (omega arith),
  pow_same n (omega arith),
  pow_small n (omega arith),
  low_bits x n h (omega arith),
  high_quotient n (omega arith) x le,
)

-- the signed word after n moves
abbrev pub sign_filled : ℕ → ℕ → ℕ
sign_filled x n = x / 2 ^ n + (if x / 2 ^ 31 % 2 == 1 then 2 ^ 32 - 2 ^ (32 - n) else 0)

pub signed_word :
    (n x c : ℕ) → x < 2 ^ 32 → n ≤ 32 → (times n signed_right (x, c)).0 ≡ sign_filled x n
signed_word n x c h k = elim (dec_lt x (2 ^ 31)) [
  | yes low ↦ ground (arith, signed_word_low n x c low)
  | no high ↦ ground (arith, signed_word_high n x c h (omega arith) k)
]

-- The filling is even until the last move.
pub signed_carry :
    (n x c : ℕ) → x < 2 ^ 32 → n < 32 → (times (suc n) signed_right (x, c)).1 ≡ x / 2 ^ n % 2
signed_carry n x c h k =
    ground (arith, signed_word n x c h (omega arith), pow_next n k, pow_small n k)

pub right_carry : (n x c : ℕ) → (times (suc n) right (x, c)).1 ≡ x / 2 ^ n % 2
right_carry n x c = omega (arith, right_word n x c)
