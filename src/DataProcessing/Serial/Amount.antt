-- ===== src/DataProcessing/Serial/Amount.antt =====
-- The word and the carry of the shift register by the amount, whatever it is.
use projet_s5_prog.Base.{
  ℕ, zero, suc, ◌-◌, ◌*◌, ◌/◌, ◌%◌, ◌^◌, ◌<◌, ◌≤◌, ◌≡◌, refl, sym, ap, ◌∙◌, arith,
}
use projet_s5_prog.Base.{◌==◌, ltb, if◌then◌else◌}
use native.Mathlib.Decide.{dec_lt}
use native.Mathlib.Nat.{div-eq_of_lt, pow-le-pow_right, mul_assoc}
use projet_s5_prog.Util.{get_bit}
use projet_s5_prog.DataProcessing.Serial.{left, right, signed_right, around, times}
use projet_s5_prog.DataProcessing.Serial.Closed.{left_word, left_carry, right_word, right_carry}
use projet_s5_prog.DataProcessing.Serial.Closed.{signed_carry, pow_next}
use projet_s5_prog.DataProcessing.Serial.Cycle.{rotated-suc}
use projet_s5_prog.Core.Rotate.{rotated, rotated-lt}

-- 32 moves empty the register.
left_emptied : (n x c : ℕ) → x < 2 ^ 32 → 32 ≤ n → (times n left (x, c)).0 ≡ 0
left_emptied zero x c h k = absurd (omega arith)
left_emptied (suc n) x c h k = elim (dec_lt n 32) [
  | yes low ↦
      let last : suc n ≡ 32 = omega arith in
      omega (arith, left_word (suc n) x c h, ap (λ (t : ℕ). x * 2 ^ t) last)
  | no high ↦ omega (arith, left_emptied n x c h (omega arith))
]

right_gone : (n x : ℕ) → x < 2 ^ 32 → 32 ≤ n → x / 2 ^ n ≡ 0
right_gone n x h k =
    div-eq_of_lt (omega (arith, pow-le-pow_right {n = 2} (omega arith) {i = 32} {j = n} k))

pub left_by :
    (n x c : ℕ)
    → x < 2 ^ 32
    → (times n left (x, c)).0 ≡ (if ltb n 32 then x * 2 ^ n % 2 ^ 32 else 0)
left_by n x c h = elim (dec_lt n 32) [
  | yes k ↦ ground (arith, left_word n x c h)
  | no k ↦ ground (arith, left_emptied n x c h (omega arith))
]

pub left_out :
    (n x c : ℕ)
    → x < 2 ^ 32
    → (times n left (x, c)).1 ≡ (if n == 0 then c else if ltb n 33 then get_bit x (32 - n) else 0)
left_out zero x c h = refl
left_out (suc n) x c h = elim (dec_lt n 32) [
  | yes k ↦ ground (arith, left_carry n x c h k, same (omega arith))
  | no k ↦ ground (arith, left_emptied n x c h (omega arith))
]
  where
    same : n < 32 → get_bit x (31 - n) ≡ get_bit x (32 - suc n)
    same k = let e : 31 - n ≡ 32 - suc n = omega arith in ap (λ (t : ℕ). get_bit x t) e

pub right_by :
    (n x c : ℕ) → x < 2 ^ 32 → (times n right (x, c)).0 ≡ (if ltb n 32 then x / 2 ^ n else 0)
right_by n x c h = elim (dec_lt n 32) [
  | yes k ↦ ground (arith, right_word n x c)
  | no k ↦ ground (arith, right_word n x c, right_gone n x h (omega arith))
]

pub right_out :
    (n x c : ℕ)
    → x < 2 ^ 32
    → (times n right (x, c)).1 ≡ (if n == 0 then c else if ltb n 33 then get_bit x (n - 1) else 0)
right_out zero x c h = refl
right_out (suc n) x c h = elim (dec_lt n 32) [
  | yes k ↦ ground (arith, right_carry n x c)
  | no k ↦ ground (arith, right_word n x c, right_gone n x h (omega arith))
]

pub signed_out :
    (n x c : ℕ)
    → x < 2 ^ 32
    → n ≤ 32
    → (times n signed_right (x, c)).1 ≡ (if n == 0 then c else get_bit x (n - 1))
signed_out zero x c h k = refl
signed_out (suc n) x c h k = ground (arith, signed_carry n x c h (omega arith))

rotated_wrap : (x n : ℕ) → x < 2 ^ 32 → rotated x (suc (n % 32)) ≡ rotated x (suc n % 32)
rotated_wrap x n h = elim (dec_lt (n % 32) 31) [
  | yes low ↦ let e : suc (n % 32) ≡ suc n % 32 = omega arith in ap (rotated x) e
  | no high ↦
      let last : suc (n % 32) ≡ 32 = omega arith in
      let first : suc n % 32 ≡ 0 = omega arith in
      let whole : rotated x 32 ≡ rotated x 0 = omega arith in
      ap (rotated x) last ∙ whole ∙ sym (ap (rotated x) first)
]

-- 32 moves around come back to the word.
pub around_by : (n x c : ℕ) → x < 2 ^ 32 → (times n around (x, c)).0 ≡ rotated x (n % 32)
around_by zero x c h = omega arith
around_by (suc n) x c h =
    omega (arith, around_by n x c h, rotated-suc x (n % 32) (omega arith), rotated_wrap x n h)

-- the bit that is moved to the top
rotated-odd : (x n : ℕ) → n < 32 → rotated x n % 2 ≡ get_bit x n
rotated-odd x n k =
    omega
      (arith, ap (λ (t : ℕ). x % 2 ^ n * t) (pow_next n k), mul_assoc (x % 2 ^ n) (2 ^ (31 - n)) 2)

-- the bit that has come to the top
pub rotated_top :
    (x n : ℕ) → x < 2 ^ 32 → 0 < n → n < 32 → get_bit (rotated x n) 31 ≡ get_bit x (n - 1)
rotated_top x zero h low high = absurd (omega arith)
rotated_top x (suc n) h low high =
    let e : suc n - 1 ≡ n = omega arith in
    omega (
      arith,
      rotated-suc x n (omega arith),
      rotated-lt x n h (omega arith),
      rotated-odd x n (omega arith),
      ap (λ (t : ℕ). get_bit x t) e,
    )

around_next : (n x c : ℕ) → x < 2 ^ 32 → (times (suc n) around (x, c)).1 ≡ get_bit x (n % 32)
around_next n x c h = omega (arith, around_by n x c h, rotated-odd x (n % 32) (omega arith))

pub around_out :
    (n x c : ℕ)
    → x < 2 ^ 32
    → (times n around (x, c)).1
      ≡ (if n == 0 then c else if n % 32 == 0 then get_bit x 31 else get_bit x (n % 32 - 1))
around_out zero x c h = refl
around_out (suc n) x c h = elim (dec_lt (n % 32) 31) [
  | yes low ↦
      let e : n % 32 ≡ suc n % 32 - 1 = omega arith in
      ground (arith, around_next n x c h, ap (λ (t : ℕ). get_bit x t) e)
  | no high ↦
      let e : n % 32 ≡ 31 = omega arith in
      ground (arith, around_next n x c h, ap (λ (t : ℕ). get_bit x t) e)
]
