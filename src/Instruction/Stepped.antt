-- ===== src/Instruction/Stepped.antt =====
-- One step of the simulator on an arithmetic instruction.
use projet_s5_prog.Base.{
  ℕ, ◌+◌, ◌*◌, ◌/◌, ◌%◌, ◌^◌, ◌<◌, ◌≡◌, ◌≢◌, ◌⊎◌, inl, inr, refl, arith, true, ◌||◌,
}
use projet_s5_prog.Base.{◌==◌, if◌then◌else◌, int_of, bit_or, u32}
use projet_s5_prog.Util.{get_bit, Undefined}
use projet_s5_prog.Core.{ArmCore, arm_fetch, arm_read_register, arm_read_cpsr, condition_passed}
use projet_s5_prog.Branch.{ran}
use projet_s5_prog.Invariant.{IsValid}
use projet_s5_prog.Invariant.Access.{fetch-IsValid}
use projet_s5_prog.DataProcessing.Fields.{get_opcode, get_rn, get_rd, get_s_bit, get_cflag}
use projet_s5_prog.DataProcessing.{is_adds, is_subs, arm_data_processing}
use projet_s5_prog.DataProcessing.Serial.{serial_operand}
use projet_s5_prog.DataProcessing.Serial.Operand.{IsShifted}
use projet_s5_prog.DataProcessing.Arithmetic.{adder_result}
use projet_s5_prog.DataProcessing.Arithmetic.Whole.{arithmetic_instruction}
use projet_s5_prog.Instruction.{
  execute_class, execute_class_zero, arm_execute_instruction, raise, arm_step,
}

-- These opcodes are not those of the miscellaneous instructions.
class_zero-calcs :
    (u : Undefined) (p : ArmCore) (ins : ℕ)
    → (is_adds ins || is_subs ins) ≡ true
    → get_bit ins 4 ≡ 0 ⊎ get_bit ins 7 ≡ 0
    → execute_class_zero u p ins ≡ arm_data_processing u p ins
unfolding execute_class_zero
class_zero-calcs u p ins one low = ground arith

class-calcs :
    (u : Undefined) (p : ArmCore) (ins : ℕ)
    → (is_adds ins || is_subs ins) ≡ true
    → IsShifted p ins
    → execute_class u p ins ≡ ran 0 (arm_data_processing u p ins).1
unfolding execute_class
class-calcs u p ins one (inl e) = rw e refl
class-calcs u p ins one (inr (e, inl low)) = rw (e, class_zero-calcs u p ins one (inl low)) refl
class-calcs u p ins one (inr (e, inr (low, fits))) =
    rw (e, class_zero-calcs u p ins one (inr low)) refl

step-ran :
    (u : Undefined) (p q : ArmCore) → arm_execute_instruction u p ≡ ran 0 q → arm_step u p ≡ ran 0 q
unfolding arm_step raise
step-ran u p q e = rw e refl

-- A step of a valid processor on an arithmetic instruction (SUB, RSB, ADD, ADC, SBC or RSC) whose
-- condition holds and whose destination is not R15, with the state that the fetch leaves: it returns
-- 0 and writes the sum that one adder makes of Rn and the operand of a register that is moved bit by
-- bit, with the complements and the carry that belong to the opcode. The CPSR is unchanged without
-- the bit S; with it N is the top bit of the result, Z says whether the result is 0, and all but the
-- four flags are as they were. ASR by a register is left out for amounts of 32 and more, and an
-- immediate operand that is not rotated is shifted by 32 without a bit added, by hypothesis.
pub arm_step_arithmetic :
    {t n e : ℕ} (u : Undefined) (p : ArmCore)
    → IsValid t n e p
    → ((x : ℕ) → x < 2 ^ 8 → bit_or x (u32 (u.shift_left x 32)) ≡ x)
    → IsShifted (arm_fetch p).core (arm_fetch p).value
    → (is_adds (arm_fetch p).value || is_subs (arm_fetch p).value) ≡ true
    → condition_passed (arm_fetch p).core (arm_fetch p).value ≢ 0
    → get_rd (arm_fetch p).value ≢ 15
    → let ins = (arm_fetch p).value in
      let before = (arm_fetch p).core in
      (q : ArmCore) × (arm_step u p ≡ ran 0 q)
      × (arm_read_register q (get_rd ins)
          ≡ adder_result
              (get_opcode ins)
              (arm_read_register before (get_rn ins))
              (serial_operand before ins).0
              (get_cflag before))
      × (arm_read_cpsr q ≡ (
          if get_s_bit ins == 1
          then (get_bit (arm_read_register q (get_rd ins)) 31 * 8
                + int_of (arm_read_register q (get_rd ins) == 0) * 4
                + arm_read_cpsr q / 2 ^ 28 % 4)
              * 2 ^ 28
            + arm_read_cpsr before % 2 ^ 28
          else arm_read_cpsr before))
unfolding arm_execute_instruction
arm_step_arithmetic u p valid wide form one passed other =
    let ins = (arm_fetch p).value in
    let before = (arm_fetch p).core in
    let q = (arm_data_processing u before ins).1 in
    let done =
      arithmetic_instruction u before ins (fetch-IsValid valid) wide form one passed other in
    (q, step-ran u p q (class-calcs u before ins one form), done.0, done.1)
