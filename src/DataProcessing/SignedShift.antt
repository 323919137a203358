-- ===== src/DataProcessing/SignedShift.antt =====
-- `arithmetic_shift_right`.
use projet_s5_prog.Base.{ℕ, ◌+◌, ◌-◌, ◌/◌, ◌^◌, ◌<◌, ◌≡◌, arith}
use projet_s5_prog.Base.{◌==◌, if◌then◌else◌}
use projet_s5_prog.Base.Mask.{bit_or_fields_swap, bit_or-zero}
use projet_s5_prog.Util.{get_bit, Undefined}
use projet_s5_prog.Core.Rotate.{low_bits}
use projet_s5_prog.Core.Ones.{ones_shifted, high_ones}
use projet_s5_prog.DataProcessing.Fields.{arithmetic_shift_right}

-- For a word and an amount strictly between 0 and 32, `arithmetic_shift_right` divides the signed
-- value of the word by 2 ^ n, rounding down: it shifts to the right and puts `n` ones on top where
-- the sign bit is set.
pub arithmetic_shift_right-floor :
    (u : Undefined) (x n : ℕ)
    → x < 2 ^ 32
    → 0 < n
    → n < 32
    → arithmetic_shift_right u x n
      ≡ x / 2 ^ n + (if get_bit x 31 == 1 then 2 ^ 32 - 2 ^ (32 - n) else 0)
unfolding arithmetic_shift_right
arithmetic_shift_right-floor u x n h low high = ground (
  arith,
  ones_shifted n high,
  high_ones n high,
  bit_or_fields_swap (32 - n) (2 ^ n - 1) (x / 2 ^ n) (low_bits x n h high),
  bit_or-zero (x / 2 ^ n),
)
