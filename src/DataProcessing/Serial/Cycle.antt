-- ===== src/DataProcessing/Serial/Cycle.antt =====
-- Where the shift register stands after a number of moves around.
use projet_s5_prog.Base.{ℕ, zero, suc, ◌+◌, ◌-◌, ◌*◌, ◌/◌, ◌%◌, ◌^◌, ◌<◌, ◌≤◌, ◌≡◌, ap, ◌∙◌, arith}
use native.Mathlib.Nat.{pow-suc, div-add-mod', add-mul, mul_assoc, mul_comm}
use projet_s5_prog.Core.Rotate.{rotated}
use projet_s5_prog.DataProcessing.Serial.{around, times}
use projet_s5_prog.DataProcessing.Serial.Closed.{div-pow_suc, pow_next, pow_same, pow_below}

halved_product : (q p : ℕ) → q * p ≡ q / 2 * (p * 2) + q % 2 * p
halved_product q p =
    let halves : q ≡ q / 2 * 2 + q % 2 = omega arith in
    let swapped : q / 2 * 2 * p ≡ q / 2 * (p * 2) =
      mul_assoc (q / 2) 2 p ∙ ap (λ (t : ℕ). q / 2 * t) (mul_comm 2 p) in
    ap (λ (t : ℕ). t * p) halves
    ∙ add-mul (q / 2 * 2) (q % 2) p
    ∙ ap (λ (t : ℕ). t + q % 2 * p) swapped

-- the next bit joins the low ones
mod-pow_suc : (x n : ℕ) → x % 2 ^ suc n ≡ x % 2 ^ n + x / 2 ^ n % 2 * 2 ^ n
mod-pow_suc x n =
    let next : x / 2 ^ suc n * 2 ^ suc n ≡ x / 2 ^ n / 2 * (2 ^ n * 2) =
      ap (λ (t : ℕ). t * 2 ^ suc n) (div-pow_suc x n)
      ∙ ap (λ (t : ℕ). x / 2 ^ n / 2 * t) (pow-suc 2 n) in
    omega (
      arith,
      next,
      halved_product (x / 2 ^ n) (2 ^ n),
      mul_comm (x / 2 ^ n) (2 ^ n),
      mul_comm (x / 2 ^ suc n) (2 ^ suc n),
      div-add-mod' x (2 ^ n),
      div-add-mod' x (2 ^ suc n),
    )

pub rotated-suc :
    (x n : ℕ) → n < 32 → rotated x (suc n) ≡ rotated x n / 2 + rotated x n % 2 * 2 ^ 31
rotated-suc x n h =
    let low = x % 2 ^ n in
    let bit = x / 2 ^ n % 2 in
    omega (
      arith,
      div-pow_suc x n,
      pow_below n h,
      ap (λ (t : ℕ). low * t) (pow_next n h),
      ap (λ (t : ℕ). x % 2 ^ suc n * t) (pow_same n h),
      ap (λ (t : ℕ). t * 2 ^ (31 - n)) (mod-pow_suc x n),
      add-mul low (bit * 2 ^ n) (2 ^ (31 - n)),
      mul_assoc bit (2 ^ n) (2 ^ (31 - n)),
      ap (λ (t : ℕ). bit * t) (mul_comm (2 ^ n) (2 ^ (31 - n)) ∙ pow_below n h),
    )

pub around_word : (n x c : ℕ) → x < 2 ^ 32 → n ≤ 32 → (times n around (x, c)).0 ≡ rotated x n
around_word zero x c h k = omega arith
around_word (suc n) x c h k =
    omega (arith, around_word n x c h (omega arith), rotated-suc x n (omega arith))
