-- ===== src/LoadStore/Scaled.antt =====
-- The scaled register offset of addressing mode 2.
use projet_s5_prog.Base.{ℕ, ◌-◌, ◌/◌, ◌^◌, ◌<◌, ◌≡◌, ◌≢◌, arith, bit_and, ==_ne}
use projet_s5_prog.Base.{not32}
use projet_s5_prog.Base.Mask.{bit_and_disjoint}
use projet_s5_prog.Util.{get_bit, get_bits, Undefined}
use projet_s5_prog.Core.{ArmCore, arm_read_register}
use projet_s5_prog.Core.Rotate.{low_bits}
use projet_s5_prog.Core.Ones.{ones_div, high_ones}
use projet_s5_prog.LoadStore.Address.{scaled_index, get_rm}

-- `~(0xFFFFFFFF >> k)` has its ones above the bits that `x >> k` has
mask_disjoint :
    (x k : ℕ) → x < 2 ^ 32 → k < 32 → bit_and (x / 2 ^ k) (not32 (0xFFFF_FFFF / 2 ^ k)) ≡ 0
mask_disjoint x k hx small = ground (
  arith,
  ones_div k small,
  high_ones k small,
  bit_and_disjoint (32 - k) (x / 2 ^ k) (2 ^ k - 1) (low_bits x k hx small),
)

-- The scaled offset ASR #n of a negative register, with n not 0, is 0 instead of the register
-- shifted with its sign.
scaled_asr_index :
    (u : Undefined) (p : ArmCore) (ins : ℕ)
    → arm_read_register p (get_rm ins) < 2 ^ 32
    → get_bits ins 6 5 ≡ 2
    → get_bits ins 11 7 ≢ 0
    → get_bit (arm_read_register p (get_rm ins)) 31 ≡ 1
    → scaled_index u p ins ≡ 0
unfolding scaled_index
scaled_asr_index u p ins small asr amount negative =
    rw (asr, ==_ne _ 0 amount, negative)
      (mask_disjoint (arm_read_register p (get_rm ins)) (get_bits ins 11 7) small (omega arith))
