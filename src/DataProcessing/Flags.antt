-- ===== src/DataProcessing/Flags.antt =====
-- The condition flags, and what a comparison leaves for the next condition.
use projet_s5_prog.Base.{ℕ, ◌+◌, ◌*◌, ◌%◌, ◌^◌, ◌<◌, ◌≡◌, arith}
use projet_s5_prog.Base.{bit_or, bit_and}
use projet_s5_prog.Base.Mask.{bit_or_fields, bit_and_mask}
use projet_s5_prog.Util.{get_bit}
use projet_s5_prog.Registers.{read_cpsr, write_cpsr}
use projet_s5_prog.Core.{ArmCore, arm_read_cpsr, arm_write_cpsr}
use projet_s5_prog.DataProcessing.Fields.{modify_nzcv}

nzcv_value :
    (n z c v s : ℕ)
    → n < 2
    → z < 2
    → c < 2
    → v < 2
    → bit_or
        (bit_or (bit_or (bit_or (n * 2 ^ 31) (z * 2 ^ 30)) (c * 2 ^ 29)) (v * 2 ^ 28))
        (bit_and s 0xFFF_FFFF)
      ≡ (n * 8 + z * 4 + c * 2 + v) * 2 ^ 28 + s % 2 ^ 28
nzcv_value n z c v s hn hz hc hv =
    rw (first, second, third, bit_and_mask 28 s)
      (bit_or_fields 28 (n * 8 + z * 4 + c * 2 + v) (s % 2 ^ 28) (omega arith))
  where
    first : bit_or (n * 2 ^ 31) (z * 2 ^ 30) ≡ (n * 2 + z) * 2 ^ 30
    first = omega (arith, bit_or_fields 31 n (z * 2 ^ 30) (omega arith))

    second : bit_or ((n * 2 + z) * 2 ^ 30) (c * 2 ^ 29) ≡ (n * 4 + z * 2 + c) * 2 ^ 29
    second = omega (arith, bit_or_fields 30 (n * 2 + z) (c * 2 ^ 29) (omega arith))

    third :
        bit_or ((n * 4 + z * 2 + c) * 2 ^ 29) (v * 2 ^ 28) ≡ (n * 8 + z * 4 + c * 2 + v) * 2 ^ 28
    third = omega (arith, bit_or_fields 29 (n * 4 + z * 2 + c) (v * 2 ^ 28) (omega arith))

pub modify_nzcv_cpsr :
    (p : ArmCore) (n z c v : ℕ)
    → n < 2
    → z < 2
    → c < 2
    → v < 2
    → arm_read_cpsr (modify_nzcv p n z c v)
      ≡ (n * 8 + z * 4 + c * 2 + v) * 2 ^ 28 + arm_read_cpsr p % 2 ^ 28
unfolding modify_nzcv arm_read_cpsr arm_write_cpsr read_cpsr write_cpsr
modify_nzcv_cpsr p n z c v hn hz hc hv = nzcv_value n z c v (p.reg 31) hn hz hc hv

-- `modify_nzcv` on four binary digits sets the flags N, Z, C and V of the CPSR to them, and keeps
-- the other 28 bits.
pub modify_nzcv_sets :
    (p : ArmCore) (n z c v : ℕ)
    → n < 2
    → z < 2
    → c < 2
    → v < 2
    → let cpsr = arm_read_cpsr (modify_nzcv p n z c v) in
      (get_bit cpsr 31 ≡ n)
      × (get_bit cpsr 30 ≡ z)
      × (get_bit cpsr 29 ≡ c)
      × (get_bit cpsr 28 ≡ v)
      × (cpsr % 2 ^ 28 ≡ arm_read_cpsr p % 2 ^ 28)
modify_nzcv_sets p n z c v hn hz hc hv = rw (modify_nzcv_cpsr p n z c v hn hz hc hv) (omega arith)
