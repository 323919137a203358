-- ===== src/Core/Rotate.antt =====
-- `rotateRight` as a rotation.
use projet_s5_prog.Base.{ℕ, ◌+◌, ◌-◌, ◌*◌, ◌/◌, ◌%◌, ◌^◌, ◌<◌, ◌≡◌, arith}
use native.Mathlib.Nat.{
  pow-suc, one-le-pow, div-lt_iff_lt-mul, mod-lt, mod-eq_of_lt, div-add-mod',
  mul-add-mod_self_right,
}
use projet_s5_prog.Base.{zero, suc, ap, ◌∙◌}
use projet_s5_prog.Base.Mask.{bit_or_fields_swap}
use projet_s5_prog.Util.{Undefined}
use projet_s5_prog.Core.{rotate_right}

-- the word whose low `n` bits have gone to the top
abbrev pub rotated : ℕ → ℕ → ℕ
rotated x n = x % 2 ^ n * 2 ^ (32 - n) + x / 2 ^ n

pub two_pow_add : (a b c : ℕ) → a + b ≡ c → 2 ^ a * 2 ^ b ≡ 2 ^ c
two_pow_add zero b c e = let e' : b ≡ c = omega arith in rw e' (omega arith)
two_pow_add (suc a) b zero e = absurd (omega arith)
two_pow_add (suc a) b (suc c) e = omega (
  arith,
  two_pow_add a b c (omega arith),
  pow-suc 2 a,
  pow-suc 2 c,
  ap (λ (t : ℕ). t * 2 ^ b) (pow-suc 2 a),
)

pub two_pow_split : (n : ℕ) → n < 32 → 2 ^ (32 - n) * 2 ^ n ≡ 2 ^ 32
two_pow_split n h = two_pow_add (32 - n) n 32 (omega arith)

-- the remainder of a multiple, and the two parts of a number that is put together from them
scaled_mod : (x h l : ℕ) → 0 < h → 0 < l → x * h % (h * l) ≡ x % l * h
scaled_mod x h l ph pl =
    ap (λ (t : ℕ). t % (h * l)) whole
    ∙ mul-add-mod_self_right (x / l) (h * l) (x % l * h)
    ∙ mod-eq_of_lt (grind (arith, mod-lt))
  where
    whole : x * h ≡ x / l * (h * l) + x % l * h
    whole = omega (arith, ap (λ (t : ℕ). t * h) (div-add-mod' x l))

pub joined_mod : (r h q : ℕ) → q < h → (r * h + q) % h ≡ q
joined_mod r h q lt = mul-add-mod_self_right r h q ∙ mod-eq_of_lt lt

pub joined_div : (r h q : ℕ) → q < h → (r * h + q) / h ≡ r
joined_div r h q lt = grind arith

pub high_bits : (x n : ℕ) → n < 32 → x * 2 ^ (32 - n) % 2 ^ 32 ≡ x % 2 ^ n * 2 ^ (32 - n)
high_bits x n h = rw (← two_pow_split n h) (
    scaled_mod x (2 ^ (32 - n)) (2 ^ n) (one-le-pow _ 2 (omega arith))
      (one-le-pow n 2 (omega arith)))

pub low_bits : (x n : ℕ) → x < 2 ^ 32 → n < 32 → x / 2 ^ n < 2 ^ (32 - n)
low_bits x n h k = (div-lt_iff_lt-mul (one-le-pow n 2 (omega arith))).1 (rw (two_pow_split n k) h)

rotated-rotated : (x n : ℕ) → x < 2 ^ 32 → 0 < n → n < 32 → rotated (rotated x n) (32 - n) ≡ x
rotated-rotated x n h low high =
    rw
      (
        joined_mod (x % 2 ^ n) (2 ^ (32 - n)) (x / 2 ^ n) (low_bits x n h high),
        joined_div (x % 2 ^ n) (2 ^ (32 - n)) (x / 2 ^ n) (low_bits x n h high),
        back,
      )
      (div-add-mod' x (2 ^ n))
  where
    back : 32 - (32 - n) ≡ n
    back = omega arith

joined-lt : (r h q l : ℕ) → r < l → q < h → r * h + q < h * l
joined-lt r h q l hr hq = grind arith

pub rotated-lt : (x n : ℕ) → x < 2 ^ 32 → n < 32 → rotated x n < 2 ^ 32
rotated-lt x n h high = rw (← two_pow_split n high) (
    joined-lt (x % 2 ^ n) (2 ^ (32 - n)) (x / 2 ^ n) (2 ^ n)
      (mod-lt x (one-le-pow n 2 (omega arith))) (low_bits x n h high))

-- For a word and an amount strictly between 0 and 32, `rotateRight` moves the low bits to the top
-- and the rest down.
pub rotate_right-rotated :
    (u : Undefined) (x n : ℕ) → x < 2 ^ 32 → 0 < n → n < 32 → rotate_right u x n ≡ rotated x n
unfolding rotate_right
rotate_right-rotated u x n h low high = ground (
  arith,
  high_bits x n high,
  bit_or_fields_swap (32 - n) (x % 2 ^ n) (x / 2 ^ n) (low_bits x n h high),
)

-- Rotating a word by `n` and then by `32 - n` gives it back, for amounts strictly between 0 and 32.
rotate_right_inverse :
    (u : Undefined) (x n : ℕ)
    → x < 2 ^ 32
    → 0 < n
    → n < 32
    → rotate_right u (rotate_right u x n) (32 - n) ≡ x
rotate_right_inverse u x n h low high =
    rw
      (
        rotate_right-rotated u x n h low high,
        rotate_right-rotated u (rotated x n) (32 - n) (rotated-lt x n h high) (omega arith)
            (omega arith),
      )
      (rotated-rotated x n h low high)
