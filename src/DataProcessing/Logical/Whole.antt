-- ===== src/DataProcessing/Logical/Whole.antt =====
-- A whole bitwise instruction: its result bit by bit, and the flags.
use projet_s5_prog.Base.{
  ℕ, ◌+◌, ◌*◌, ◌/◌, ◌%◌, ◌^◌, ◌<◌, ◌≡◌, ◌≢◌, ◌∙◌, ap, refl, arith, Bool-cases, inl, inr, true,
}
use projet_s5_prog.Base.{◌==◌, ==_ne, if◌then◌else◌, int_of, bit_or, u32}
use projet_s5_prog.Util.{get_bit, Undefined}
use projet_s5_prog.Core.{ArmCore, arm_read_register, arm_read_cpsr, arm_write_register}
use projet_s5_prog.Core.{condition_passed}
use projet_s5_prog.Core.Written.{written_register}
use projet_s5_prog.Invariant.{IsValid}
use projet_s5_prog.Invariant.Shifted.{packing_shifter_unpacks}
use projet_s5_prog.DataProcessing.Fields.{get_opcode, get_rn, get_rd, get_s_bit, modify_nzcv}
use projet_s5_prog.DataProcessing.Fields.{get_shifter_operand, get_shifter_carry_out}
use projet_s5_prog.DataProcessing.Shifter.{get_operande_and_carry_out}
use projet_s5_prog.DataProcessing.Flags.{modify_nzcv_cpsr}
use projet_s5_prog.DataProcessing.Serial.{serial_operand}
use projet_s5_prog.DataProcessing.Serial.Bounds.{serial_operand_bounds}
use projet_s5_prog.DataProcessing.Serial.Operand.{IsShifted, operande_and_carry_out_moves}
use projet_s5_prog.DataProcessing.FlagsKept.{cpsr-write_register, register-modify_nzcv}
use projet_s5_prog.DataProcessing.Logical.{bit_of_opcode, bitwise_result_bits}
use projet_s5_prog.DataProcessing.{
  is_bitwises, bitwise_result, bitwise_procedure, arm_data_processing,
}

bitwise_dispatched :
    (u : Undefined) (p : ArmCore) (ins : ℕ)
    → is_bitwises ins ≡ true
    → (arm_data_processing u p ins).1 ≡ (bitwise_procedure u p ins).1
unfolding arm_data_processing
bitwise_dispatched u p ins one = ground arith

-- the result and the CPSR of `bitwise_procedure`, for an operand and a carry that are known
module _ (u : Undefined) (p : ArmCore) (ins operand carry : ℕ)
    (o : get_shifter_operand (get_operande_and_carry_out u p ins) ≡ operand)
    (c : get_shifter_carry_out (get_operande_and_carry_out u p ins) ≡ carry) (digit : carry < 2)
    (passed : condition_passed p ins ≢ 0) (other : get_rd ins ≢ 15) where
  abbrev result : ℕ
  result = bitwise_result u ins (arm_read_register p (get_rn ins)) operand

  abbrev written : ArmCore
  written = arm_write_register p (get_rd ins) result

  abbrev old_v : ℕ
  old_v = arm_read_cpsr p / 2 ^ 28 % 2

  result_read : arm_read_register written (get_rd ins) ≡ result
  result_read = written_register p (get_rd ins) result (omega arith) other

  procedure_core : (bitwise_procedure u p ins).1 ≡ (
      if get_s_bit ins == 1
      then modify_nzcv written (get_bit result 31) (int_of (result == 0)) carry old_v
      else written)
  unfolding bitwise_procedure
  procedure_core =
      rw
        (
          o,
          c,
          ==_ne (condition_passed p ins) 0 passed,
          ==_ne (get_rd ins) 15 other,
          result_read,
          cpsr-write_register p (get_rd ins) result,
        )
        (elim (Bool-cases (get_s_bit ins == 1)) [ inl e ↦ rw e refl | inr e ↦ rw e refl ])

  procedure_result :
      (arm_read_register (bitwise_procedure u p ins).1 (get_rd ins) ≡ result)
      × (arm_read_cpsr (bitwise_procedure u p ins).1 ≡ (
          if get_s_bit ins == 1
          then (get_bit result 31 * 8 + int_of (result == 0) * 4 + carry * 2 + old_v) * 2 ^ 28
            + arm_read_cpsr p % 2 ^ 28
          else arm_read_cpsr p))
  procedure_result = rw procedure_core (elim (Bool-cases (get_s_bit ins == 1)) [
    | inl e ↦ rw e (
      register-modify_nzcv written (get_bit result 31) (int_of (result == 0)) carry old_v
            (get_rd ins) (omega arith) zero-lt digit (omega arith)
          ∙ result_read,
      modify_nzcv_cpsr written (get_bit result 31) (int_of (result == 0)) carry old_v (omega arith)
            zero-lt digit (omega arith)
          ∙ rw (cpsr-write_register p (get_rd ins) result) refl,
    )
    | inr e ↦ rw e (result_read, cpsr-write_register p (get_rd ins) result)
  ])
    where
      zero-lt : int_of (result == 0) < 2
      zero-lt = ground arith

-- A bitwise instruction (AND, EOR, ORR, MOV, BIC or MVN) of a valid processor, whose condition holds
-- and whose destination is not R15: bit `i` of the register that it writes is the operation of its
-- opcode on bit `i` of Rn and of the operand of a register that is moved bit by bit, and the CPSR is
-- unchanged without the bit S, while with it N is the top bit of the result, Z says whether the
-- result is 0, C is the bit that left the moved register last, and the rest is as it was. ASR by a
-- register is left out for amounts of 32 and more, and an immediate operand that is not rotated is
-- shifted by 32 without a bit added, by hypothesis.
pub bitwise_instruction :
    {t n e : ℕ} (u : Undefined) (p : ArmCore) (ins i : ℕ)
    → i < 32
    → IsValid t n e p
    → ((x : ℕ) → x < 2 ^ 8 → bit_or x (u32 (u.shift_left x 32)) ≡ x)
    → IsShifted p ins
    → is_bitwises ins ≡ true
    → condition_passed p ins ≢ 0
    → get_rd ins ≢ 15
    → let q = (arm_data_processing u p ins).1 in
      let result = arm_read_register q (get_rd ins) in
      let (operand, carry) = serial_operand p ins in
      (get_bit result i
        ≡ bit_of_opcode
            (get_opcode ins)
            (get_bit (arm_read_register p (get_rn ins)) i)
            (get_bit operand i))
      × (arm_read_cpsr q ≡ (
          if get_s_bit ins == 1
          then (get_bit result 31 * 8
                + int_of (result == 0) * 4
                + carry * 2
                + get_bit (arm_read_cpsr p) 28)
              * 2 ^ 28
            + arm_read_cpsr p % 2 ^ 28
          else arm_read_cpsr p))
bitwise_instruction u p ins i k valid wide form one passed other =
    let s = serial_operand p ins in
    let bounds = serial_operand_bounds p ins valid in
    let unpacked = packing_shifter_unpacks s.0 s.1 bounds.0 (omega arith) in
    let moves = operande_and_carry_out_moves u p ins valid wide form in
    let done =
      procedure_result u p ins s.0 s.1 (ap get_shifter_operand moves ∙ unpacked.0)
        (ap get_shifter_carry_out moves ∙ unpacked.1) bounds.1 passed other in
    rw (bitwise_dispatched u p ins one, done.0)
      (bitwise_result_bits u ins (arm_read_register p (get_rn ins)) s.0 i bounds.0 k one, done.1)
