-- ===== src/DataProcessing/Fields.antt =====
-- The fields of an instruction, the flags in the CPSR, and the packing of a shifter operand with
-- its carry, of arm_data_processing.c.
use projet_s5_prog.Base.{ℕ, ◌-◌, ◌*◌, ◌/◌, ◌%◌, ◌^◌, bit_and, bit_or}
use projet_s5_prog.Base.{◌==◌, if◌then◌else◌, u32, word, sub32}
use projet_s5_prog.Util.{get_bit, get_bits, Undefined, shl, shr}
use projet_s5_prog.Core.{ArmCore, arm_read_cpsr, arm_write_cpsr}

unfoldable pub get_cflag : ArmCore → ℕ
get_cflag p = arm_read_cpsr p / 2 ^ 29 % 2

abbrev pub get_rn : ℕ → ℕ
get_rn ins = get_bits ins 19 16

abbrev pub get_rd : ℕ → ℕ
get_rd ins = get_bits ins 15 12

abbrev pub get_s_bit : ℕ → ℕ
get_s_bit ins = get_bit ins 20

abbrev pub get_opcode : ℕ → ℕ
get_opcode ins = get_bits ins 24 21

-- The flags are 0 or 1; `n << 31` of an `int` 1 is the sign bit.
unfoldable pub modify_nzcv : ArmCore → ℕ → ℕ → ℕ → ℕ → ArmCore
modify_nzcv p n z c v =
    let cpsr_current = bit_and (arm_read_cpsr p) 0xFFF_FFFF in
    let new_cpsr =
      bit_or (bit_or (bit_or (bit_or (n * 2 ^ 31) (z * 2 ^ 30)) (c * 2 ^ 29)) (v * 2 ^ 28))
        cpsr_current in
    arm_write_cpsr p new_cpsr

module _ (u : Undefined) where
  -- `~0 << (32 - shift)` keeps the high `shift` ones of a word.
  unfoldable pub arithmetic_shift_right : ℕ → ℕ → ℕ
  arithmetic_shift_right value shift =
      bit_or (shr u value shift)
        (if get_bit value 31 == 1 then shl u (word - 1) (sub32 32 shift) else 0)

-- A `uint64_t`: the operand above, the carry below.
unfoldable pub packing_shifter : ℕ → ℕ → ℕ
packing_shifter shifter_operand shifter_carry_out =
    let so = shifter_operand in bit_or (so * 2 ^ 32 % 2 ^ 64) shifter_carry_out

unfoldable pub get_shifter_operand : ℕ → ℕ
get_shifter_operand res = bit_and (res / 2 ^ 32) 0xFFFF_FFFF

unfoldable pub get_shifter_carry_out : ℕ → ℕ
get_shifter_carry_out res = u32 (bit_and res 0xFFFF_FFFF)
