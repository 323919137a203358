-- ===== src/DataProcessing/Arithmetic/Whole.antt =====
-- A whole arithmetic instruction: its result and the flags N and Z.
use projet_s5_prog.Base.{
  ℕ, ◌+◌, ◌*◌, ◌/◌, ◌%◌, ◌^◌, ◌<◌, ◌≡◌, ◌≢◌, ◌∙◌, ap, refl, arith, Bool-cases, inl, inr, true, ◌||◌,
}
use projet_s5_prog.Base.{◌==◌, ==_ne, if◌then◌else◌, int_of, bit_or, u32}
use projet_s5_prog.Util.{get_bit, Undefined}
use projet_s5_prog.Core.{ArmCore, arm_read_register, arm_read_cpsr, arm_write_register}
use projet_s5_prog.Core.{condition_passed}
use projet_s5_prog.Core.Written.{written_register}
use projet_s5_prog.Invariant.{IsValid}
use projet_s5_prog.Invariant.Access.{read_register-lt}
use projet_s5_prog.Invariant.Shifted.{packing_shifter_unpacks}
use projet_s5_prog.Invariant.Data.{calcs_carry-lt, get_overflow_flag-lt}
use projet_s5_prog.DataProcessing.Fields.{get_opcode, get_rn, get_rd, get_s_bit, get_cflag}
use projet_s5_prog.DataProcessing.Fields.{modify_nzcv, get_shifter_operand}
use projet_s5_prog.DataProcessing.Shifter.{get_operande_and_carry_out}
use projet_s5_prog.DataProcessing.Flags.{modify_nzcv_cpsr}
use projet_s5_prog.DataProcessing.FlagsKept.{cpsr-write_register, register-modify_nzcv}
use projet_s5_prog.DataProcessing.Serial.{serial_operand}
use projet_s5_prog.DataProcessing.Serial.Bounds.{serial_operand_bounds}
use projet_s5_prog.DataProcessing.Serial.Operand.{IsShifted, operande_and_carry_out_moves}
use projet_s5_prog.DataProcessing.Arithmetic.{adder_result, calcs_result-adder_result}
use projet_s5_prog.DataProcessing.{is_adds, is_subs, calcs_result, calcs_carry, calcs_procedure}
use projet_s5_prog.DataProcessing.{get_overflow_flag, arm_data_processing}

calcs_dispatched :
    (u : Undefined) (p : ArmCore) (ins : ℕ)
    → (is_adds ins || is_subs ins) ≡ true
    → (arm_data_processing u p ins).1 ≡ (calcs_procedure u p ins).1
unfolding arm_data_processing
calcs_dispatched u p ins one = rw one refl

module _ (u : Undefined) (p : ArmCore) (ins operand : ℕ)
    (o : get_shifter_operand (get_operande_and_carry_out u p ins) ≡ operand)
    (passed : condition_passed p ins ≢ 0) (other : get_rd ins ≢ 15) where
  abbrev rn : ℕ
  rn = arm_read_register p (get_rn ins)

  abbrev result : ℕ
  result = calcs_result u p ins rn operand

  abbrev written : ArmCore
  written = arm_write_register p (get_rd ins) result

  abbrev carry : ℕ
  carry = calcs_carry u written ins rn operand

  abbrev overflow : ℕ
  overflow = get_overflow_flag rn operand result

  result_read : arm_read_register written (get_rd ins) ≡ result
  result_read = written_register p (get_rd ins) result (omega arith) other

  procedure_core : (calcs_procedure u p ins).1 ≡ (
      if get_s_bit ins == 1
      then modify_nzcv written (get_bit result 31) (int_of (result == 0)) carry overflow
      else written)
  unfolding calcs_procedure
  procedure_core =
      rw (o, ==_ne (condition_passed p ins) 0 passed, ==_ne (get_rd ins) 15 other, result_read)
        (elim (Bool-cases (get_s_bit ins == 1)) [ inl e ↦ rw e refl | inr e ↦ rw e refl ])

  -- the CPSR, from the one that the flags C and V are taken from
  abbrev flagged : ℕ → ℕ
  flagged cpsr =
      if get_s_bit ins == 1
      then (get_bit result 31 * 8 + int_of (result == 0) * 4 + cpsr / 2 ^ 28 % 4) * 2 ^ 28
        + arm_read_cpsr p % 2 ^ 28
      else arm_read_cpsr p

  procedure_result :
      (arm_read_register (calcs_procedure u p ins).1 (get_rd ins) ≡ result)
      × (arm_read_cpsr (calcs_procedure u p ins).1
          ≡ flagged (arm_read_cpsr (calcs_procedure u p ins).1))
  procedure_result = rw procedure_core (elim (Bool-cases (get_s_bit ins == 1)) [
    | inl e ↦ rw e (
      register-modify_nzcv written n z carry overflow (get_rd ins) (omega arith) z-lt c-lt v-lt
          ∙ result_read,
      omega (
        arith,
        modify_nzcv_cpsr written n z carry overflow (omega arith) z-lt c-lt v-lt,
        cpsr-write_register p (get_rd ins) result,
        z-lt,
        c-lt,
        v-lt,
      ),
    )
    | inr e ↦ rw e (result_read, cpsr-write_register p (get_rd ins) result)
  ])
    where
      n : ℕ
      n = get_bit result 31

      z : ℕ
      z = int_of (result == 0)

      z-lt : int_of (result == 0) < 2
      z-lt = ground arith

      c-lt : carry < 2
      c-lt = calcs_carry-lt u written ins rn operand

      v-lt : overflow < 2
      v-lt = get_overflow_flag-lt rn operand result

-- An arithmetic instruction (SUB, RSB, ADD, ADC, SBC or RSC) of a valid processor, whose condition
-- holds and whose destination is not R15: the register that it writes is the sum that one adder
-- makes of Rn and the operand of a register that is moved bit by bit, one of them complemented for
-- the subtractions, with a carry: 1 for SUB and RSB, 0 for ADD, the carry flag for the others. The
-- CPSR is unchanged without the bit S; with it N is the top bit of the result, Z says whether the
-- result is 0, and all but the four flags are as it was. ASR by a register is left out for amounts of
-- 32 and more, and an immediate operand that is not rotated is shifted by 32 without a bit added,
-- by hypothesis.
pub arithmetic_instruction :
    {t n e : ℕ} (u : Undefined) (p : ArmCore) (ins : ℕ)
    → IsValid t n e p
    → ((x : ℕ) → x < 2 ^ 8 → bit_or x (u32 (u.shift_left x 32)) ≡ x)
    → IsShifted p ins
    → (is_adds ins || is_subs ins) ≡ true
    → condition_passed p ins ≢ 0
    → get_rd ins ≢ 15
    → let q = (arm_data_processing u p ins).1 in
      let result = arm_read_register q (get_rd ins) in
      (result
        ≡ adder_result
            (get_opcode ins)
            (arm_read_register p (get_rn ins))
            (serial_operand p ins).0
            (get_cflag p))
      × (arm_read_cpsr q ≡ (
          if get_s_bit ins == 1
          then (get_bit result 31 * 8 + int_of (result == 0) * 4 + arm_read_cpsr q / 2 ^ 28 % 4)
              * 2 ^ 28
            + arm_read_cpsr p % 2 ^ 28
          else arm_read_cpsr p))
arithmetic_instruction u p ins valid wide form one passed other =
    let s = serial_operand p ins in
    let bounds = serial_operand_bounds p ins valid in
    let unpacked = packing_shifter_unpacks s.0 s.1 bounds.0 (omega arith) in
    let moves = operande_and_carry_out_moves u p ins valid wide form in
    let done =
      procedure_result u p ins s.0 (ap get_shifter_operand moves ∙ unpacked.0) passed other in
    let sum =
      calcs_result-adder_result u p ins (arm_read_register p (get_rn ins)) s.0
        (read_register-lt valid (get_rn ins)) bounds.0 one in
    rw (calcs_dispatched u p ins one, done.0) (sum, done.1)
