-- ===== src/Core/Ones.antt =====
-- The ones that a shift of an all-ones word leaves.
use projet_s5_prog.Base.{ℕ, ◌+◌, ◌-◌, ◌*◌, ◌/◌, ◌%◌, ◌^◌, ◌≤◌, ◌<◌, ◌≡◌, arith, ap, ◌∙◌}
use native.Mathlib.Nat.{one-le-pow, mul-sub, pow-le-pow_right}
use projet_s5_prog.Core.Rotate.{two_pow_split, joined_mod, joined_div, high_bits}

-- The word of ones, split at bit `n`.
module _ (n : ℕ) (high : n < 32) where
  powers : (1 ≤ 2 ^ n) × (1 ≤ 2 ^ (32 - n)) × (2 ^ (32 - n) * 2 ^ n ≡ 2 ^ 32)
  powers = (one-le-pow n 2 (omega arith), one-le-pow (32 - n) 2 (omega arith), two_pow_split n high)

  power_le : 2 ^ n ≤ 2 ^ 32
  power_le = pow-le-pow_right {n = 2} (omega arith) {i = n} {j = 32} (omega arith)

  ones_split : 2 ^ 32 - 1 ≡ (2 ^ (32 - n) - 1) * 2 ^ n + (2 ^ n - 1)
  ones_split = omega (arith, powers, power_le, mul-sub (2 ^ n) (2 ^ (32 - n)) 1)

  ones_mod : (2 ^ 32 - 1) % 2 ^ n ≡ 2 ^ n - 1
  ones_mod =
      ap (λ (w : ℕ). w % 2 ^ n) ones_split
      ∙ joined_mod (2 ^ (32 - n) - 1) (2 ^ n) (2 ^ n - 1) (omega (arith, powers))

  pub ones_div : (2 ^ 32 - 1) / 2 ^ n ≡ 2 ^ (32 - n) - 1
  ones_div =
      ap (λ (w : ℕ). w / 2 ^ n) ones_split
      ∙ joined_div (2 ^ (32 - n) - 1) (2 ^ n) (2 ^ n - 1) (omega (arith, powers))

  pub high_ones : (2 ^ n - 1) * 2 ^ (32 - n) ≡ 2 ^ 32 - 2 ^ (32 - n)
  high_ones = omega (arith, powers, mul-sub (2 ^ (32 - n)) (2 ^ n) 1)

  pub ones_shifted : (2 ^ 32 - 1) * 2 ^ (32 - n) % 2 ^ 32 ≡ (2 ^ n - 1) * 2 ^ (32 - n)
  ones_shifted = high_bits (2 ^ 32 - 1) n high ∙ ap (λ (w : ℕ). w * 2 ^ (32 - n)) ones_mod
