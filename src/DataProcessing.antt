-- ===== src/DataProcessing.antt =====
-- arm_data_processing.c: the sixteen data-processing instructions.
-- `Fields` holds the fields and flags, `Shifter` the operands of addressing mode 1; here are the
-- carry and overflow computations, the three procedures and the dispatch. An `int32_t` is its bit
-- pattern, so that `unsigned_to_signed` is the identity.
pub mod Fields
pub mod Shifter
pub mod Flags
pub mod FlagsKept
pub mod Compared
pub mod Overflow
pub mod SignedShift
pub mod Arithmetic
pub mod Serial
pub mod Carry
pub mod Logical
use projet_s5_prog.Base.{ℕ, ◌+◌, ◌-◌, ◌*◌, ◌/◌, ◌%◌, ◌^◌, bit_and, bit_or, bit_xor}
use projet_s5_prog.Base.{Bool, not, ◌&&◌, ◌||◌}
use projet_s5_prog.Base.{ltb, ◌==◌, if◌then◌else◌, truthy, int_of, add32, sub32, not32, les32}
use projet_s5_prog.Util.{get_bit, Undefined}
use projet_s5_prog.Core.{ArmCore, arm_current_mode_has_spsr, condition_passed}
use projet_s5_prog.Core.{arm_read_register, arm_read_cpsr, arm_read_spsr}
use projet_s5_prog.Core.{arm_write_register, arm_write_cpsr}
use projet_s5_prog.Exception.{undefined_instruction}
use Fields.{get_cflag, get_rn, get_rd, get_s_bit, get_opcode, modify_nzcv}
use Fields.{get_shifter_operand, get_shifter_carry_out}
use Shifter.{get_operande_and_carry_out}

-- `INT32_MAX`
abbrev int32_max : ℕ
int32_max = 0x7FFF_FFFF

unfoldable pub get_carry : ArmCore → ℕ → ℕ → ℕ → ℕ
get_carry p number1 number2 condition =
    if condition == 1
    then (if les32 number2 (sub32 int32_max number1) then 0 else 1)
    else if condition == 2
    then (let complement = get_cflag p in
        if les32 (add32 number2 complement) (sub32 int32_max number1) then 0 else 1)
    else 1

-- `!flag` of an `int`
abbrev not_flag : ℕ → ℕ
not_flag b = int_of (b == 0)

unfoldable pub get_borrow : ArmCore → ℕ → ℕ → ℕ → ℕ
get_borrow p number1 number2 condition =
    if condition == 1
    then (if les32 number2 number1 then 0 else 1)
    else if condition == 2
    then (let borrow = get_cflag p in
        let res = sub32 (sub32 number1 number2) (not_flag borrow) in if les32 0 res then 0 else 1)
    else 1

-- `~a & ~b & c` of binary digits, where `c` masks all but the lowest bit of the complements
unfoldable pub get_overflow_flag : ℕ → ℕ → ℕ → ℕ
get_overflow_flag number1 number2 res =
    let b1 = get_bit number1 7 in
    let b2 = get_bit number2 7 in
    let r = get_bit res 7 in bit_or ((1 - b1) * (1 - b2) * r) (b1 * b2 * (1 - r))

abbrev pub is_adds : ℕ → Bool
is_adds ins = get_opcode ins == 4 || get_opcode ins == 5

abbrev pub is_subs : ℕ → Bool
is_subs ins =
    get_opcode ins == 2 || get_opcode ins == 6 || get_opcode ins == 3 || get_opcode ins == 7

abbrev pub is_bitwises : ℕ → Bool
is_bitwises ins =
    get_opcode ins == 0
    || get_opcode ins == 14
    || get_opcode ins == 1
    || get_opcode ins == 12
    || get_opcode ins == 15
    || get_opcode ins == 13

abbrev pub is_test : ℕ → Bool
is_test ins = get_opcode ins == 9 || get_opcode ins == 8

abbrev pub is_comp : ℕ → Bool
is_comp ins = (get_opcode ins == 11 || get_opcode ins == 10) && get_bit ins 20 == 1

-- `if(arm_current_mode_has_spsr(p)) arm_write_cpsr(p, arm_read_spsr(p));`
abbrev pub restore_cpsr : ArmCore → ArmCore
restore_cpsr p =
    if truthy (arm_current_mode_has_spsr p) then arm_write_cpsr p (arm_read_spsr p) else p

module _ (u : Undefined) where
  -- the arithmetic of `calcs_procedure`; other opcodes leave `rd_data` unassigned
  unfoldable pub calcs_result : ArmCore → ℕ → ℕ → ℕ → ℕ
  calcs_result p ins rn_data shifter_operand =
      if get_opcode ins == 4
      then add32 rn_data shifter_operand
      else if get_opcode ins == 5
      then add32 (add32 rn_data shifter_operand) (get_cflag p)
      else if get_opcode ins == 2
      then sub32 rn_data shifter_operand
      else if get_opcode ins == 6
      then sub32 (sub32 rn_data shifter_operand) (not_flag (get_cflag p))
      else if get_opcode ins == 3
      then sub32 shifter_operand rn_data
      else if get_opcode ins == 7
      then sub32 (sub32 shifter_operand rn_data) (not_flag (get_cflag p))
      else u.local % 2 ^ 32

  -- its carry flag
  unfoldable pub calcs_carry : ArmCore → ℕ → ℕ → ℕ → ℕ
  calcs_carry p ins rn_data shifter_operand =
      if get_opcode ins == 4
      then get_carry p rn_data shifter_operand 1
      else if get_opcode ins == 5
      then get_carry p rn_data shifter_operand 2
      else if get_opcode ins == 2
      then not_flag (get_borrow p rn_data shifter_operand 1)
      else if get_opcode ins == 3
      then not_flag (get_borrow p shifter_operand rn_data 1)
      else if get_opcode ins == 6
      then not_flag (get_borrow p rn_data shifter_operand 2)
      else if get_opcode ins == 7
      then not_flag (get_borrow p shifter_operand rn_data 2)
      else 0

  unfoldable pub calcs_procedure : ArmCore → ℕ → ℕ × ArmCore
  calcs_procedure p ins =
      let packaged = get_operande_and_carry_out u p ins in
      let shifter_operand = get_shifter_operand packaged in
      let rn_data = arm_read_register p (get_rn ins) in
      if truthy (condition_passed p ins)
      then (let rd_data = calcs_result p ins rn_data shifter_operand in
          let p1 = arm_write_register p (get_rd ins) rd_data in
          if get_s_bit ins == 1 && get_rd ins == 15
          then (0, restore_cpsr p1)
          else if get_s_bit ins == 1
          then (let n = get_bit (arm_read_register p1 (get_rd ins)) 31 in
              let z = int_of (arm_read_register p1 (get_rd ins) == 0) in
              let c = calcs_carry p1 ins rn_data shifter_operand in
              let v = get_overflow_flag rn_data shifter_operand rd_data in
              (0, modify_nzcv p1 n z c v))
          else (0, p1))
      else (0, p)

  unfoldable pub bitwise_result : ℕ → ℕ → ℕ → ℕ
  bitwise_result ins rn_data shifter_operand =
      if get_opcode ins == 0
      then bit_and rn_data shifter_operand
      else if get_opcode ins == 14
      then bit_and rn_data (not32 shifter_operand)
      else if get_opcode ins == 1
      then bit_xor rn_data shifter_operand
      else if get_opcode ins == 12
      then bit_or rn_data shifter_operand
      else if get_opcode ins == 15
      then not32 shifter_operand
      else if get_opcode ins == 13
      then shifter_operand
      else u.local % 2 ^ 32

  unfoldable pub bitwise_procedure : ArmCore → ℕ → ℕ × ArmCore
  bitwise_procedure p ins =
      let packaged = get_operande_and_carry_out u p ins in
      let shifter_operand = get_shifter_operand packaged in
      let rn_data = arm_read_register p (get_rn ins) in
      if truthy (condition_passed p ins)
      then (let rd_data = bitwise_result ins rn_data shifter_operand in
          let p1 = arm_write_register p (get_rd ins) rd_data in
          if get_s_bit ins == 1 && get_rd ins == 15
          then (0, restore_cpsr p1)
          else if get_s_bit ins == 1
          then (let n = get_bit (arm_read_register p1 (get_rd ins)) 31 in
              let z = int_of (arm_read_register p1 (get_rd ins) == 0) in
              let c = get_shifter_carry_out packaged in
              let v = arm_read_cpsr p1 / 2 ^ 28 % 2 in (0, modify_nzcv p1 n z c v))
          else (0, p1))
      else (0, p)

  unfoldable pub cmptst_result : ℕ → ℕ → ℕ → ℕ
  cmptst_result ins rn_data shifter_operand =
      if get_opcode ins == 8
      then bit_and rn_data shifter_operand
      else if get_opcode ins == 9
      then bit_xor rn_data shifter_operand
      else if get_opcode ins == 10
      then sub32 rn_data shifter_operand
      else if get_opcode ins == 11
      then add32 rn_data shifter_operand
      else 0

  unfoldable pub cmptst_procedure : ArmCore → ℕ → ℕ × ArmCore
  cmptst_procedure p ins =
      let packaged = get_operande_and_carry_out u p ins in
      let shifter_operand = get_shifter_operand packaged in
      let rn_data = arm_read_register p (get_rn ins) in
      if truthy (condition_passed p ins)
      then (let alu_out = cmptst_result ins rn_data shifter_operand in
          let n = get_bit alu_out 31 in
          let z = int_of (alu_out == 0) in
          let c =
            if is_test ins
            then get_shifter_carry_out packaged
            else if get_opcode ins == 10
            then get_carry p rn_data shifter_operand 2
            else get_borrow p rn_data shifter_operand 1 in
          let v = arm_read_cpsr p / 2 ^ 28 % 2 in (0, modify_nzcv p n z c v))
      else (0, p)

  unfoldable pub arm_data_processing : ArmCore → ℕ → ℕ × ArmCore
  arm_data_processing p ins =
      if is_adds ins || is_subs ins
      then (0, (calcs_procedure p ins).1)
      else if is_bitwises ins
      then (0, (bitwise_procedure p ins).1)
      else if is_comp ins || is_test ins
      then (0, (cmptst_procedure p ins).1)
      else (undefined_instruction, p)
