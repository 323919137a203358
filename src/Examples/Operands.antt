-- ===== src/Examples/Operands.antt =====
-- Operands and bitwise instructions on concrete words.
use projet_s5_prog.Base.{
  ℕ, ◌+◌, ◌*◌, ◌/◌, ◌%◌, ◌^◌, ◌<◌, ◌≡◌, ◌≢◌, refl, ap, inl, inr, arith, bit_or,
}
use projet_s5_prog.Base.{◌==◌, if◌then◌else◌, int_of, u32}
use projet_s5_prog.Base.Mask.{bit_or-zero}
use projet_s5_prog.Util.{get_bit}
use projet_s5_prog.Core.{ArmCore, arm_fetch, arm_read_register, arm_read_cpsr, condition_passed}
use projet_s5_prog.Util.{get_bits}
use projet_s5_prog.DataProcessing.Fields.{get_opcode, get_rn, get_rd, get_s_bit, get_cflag}
use projet_s5_prog.DataProcessing.Shifter.{get_operande_and_carry_out}
use projet_s5_prog.DataProcessing.Serial.{serial_operand}
use projet_s5_prog.DataProcessing.Serial.Shifts.{packed}
use projet_s5_prog.DataProcessing.Serial.Operand.{operande_and_carry_out_moves}
use projet_s5_prog.DataProcessing.Logical.{bit_of_opcode}
use projet_s5_prog.DataProcessing.Logical.Whole.{bitwise_instruction}
use projet_s5_prog.DataProcessing.Carry.{carry_and_borrow_signed, carry_and_borrow_wrong}
use projet_s5_prog.DataProcessing.{arm_data_processing, get_carry, get_borrow}
use projet_s5_prog.Memory.{memory_read_word, memory_read_byte}
use projet_s5_prog.Registers.{read_register, get_mode}
use projet_s5_prog.Branch.{ran}
use projet_s5_prog.Invariant.{IsValid}
use projet_s5_prog.Instruction.{arm_step}
use projet_s5_prog.Instruction.Stepped.{arm_step_arithmetic}
use projet_s5_prog.DataProcessing.Arithmetic.{adder_result}
use projet_s5_prog.Examples.Data.{
  zeros, machine, machine-IsValid, small_memory, program, program-lt,
}

-- A shift by 32 that gives 0 adds no bit.
no_bit : (x : ℕ) → x < 2 ^ 8 → bit_or x (u32 (zeros.shift_left x 32)) ≡ x
no_bit x h = bit_or-zero x

-- `MOVS R0, R1, LSR #32`
operande_and_carry_out_moves_example :
    get_operande_and_carry_out zeros machine 0xE1B0_0021
    ≡ packed (serial_operand machine 0xE1B0_0021)
operande_and_carry_out_moves_example =
    operande_and_carry_out_moves zeros machine 0xE1B0_0021 machine-IsValid no_bit
      (inr (refl, inl refl))

always_passes : condition_passed machine 0xE1D1_0002 ≢ 0
unfolding condition_passed
always_passes = omega arith

-- `BICS R0, R1, R2`, and bit 2 of its result
bitwise_instruction_example :
    let q = (arm_data_processing zeros machine 0xE1D1_0002).1 in
    let result = arm_read_register q 0 in
    let (operand, carry) = serial_operand machine 0xE1D1_0002 in
    (get_bit result 2
      ≡ bit_of_opcode 14 (get_bit (arm_read_register machine 1) 2) (get_bit operand 2))
    × (arm_read_cpsr q
        ≡ (get_bit result 31 * 8
              + int_of (result == 0) * 4
              + carry * 2
              + get_bit (arm_read_cpsr machine) 28)
            * 2 ^ 28
          + arm_read_cpsr machine % 2 ^ 28)
bitwise_instruction_example =
    bitwise_instruction zeros machine 0xE1D1_0002 2 (omega arith) machine-IsValid no_bit
      (inr (refl, inl refl)) refl always_passes (omega arith)

carry_and_borrow_signed_example :
    (get_carry machine 0xFFFF_FFFF 1 1 ≡ 1) × (get_borrow machine 0xFFFF_FFFF 1 1 ≡ 1)
carry_and_borrow_signed_example =
    carry_and_borrow_signed machine 0xFFFF_FFFF 1 (omega arith) (omega arith)

carry_and_borrow_wrong_example :
    (get_carry machine 0x7FFF_FFFF 1 1 ≢ 0) × (get_borrow machine 0x8000_0000 1 1 ≢ 0)
carry_and_borrow_wrong_example =
    carry_and_borrow_wrong machine 0x7FFF_FFFF 1 0x8000_0000 1 (omega arith) (omega arith)
      (omega arith) (omega arith) (omega arith) (omega arith)

-- the machine at address 0, in front of `ADD R0, R0, #1`
abbrev adding : ArmCore
adding = record machine {
  reg = λ k. if k == 31 then 0x1d3 else 0;
  mem = record small_memory { mem_data = program };
}

adding-IsValid : IsValid 0 64 0 adding
adding-IsValid = record {
  counted = refl;
  words = λ k. ground arith;
  bytes = program-lt;
  same_size = refl;
  same_order = refl;
}

fetched_add : (arm_fetch adding).value ≡ 0xE280_0001
unfolding arm_fetch arm_read_register read_register get_mode memory_read_word memory_read_byte
fetched_add = refl

always_runs : (p : ArmCore) (ins : ℕ) → ins ≡ 0xE280_0001 → condition_passed p ins ≢ 0
unfolding condition_passed
always_runs p ins e = rw e (omega arith)

arm_step_arithmetic_example :
    let ins = (arm_fetch adding).value in
    let before = (arm_fetch adding).core in
    (q : ArmCore) × (arm_step zeros adding ≡ ran 0 q)
    × (arm_read_register q (get_rd ins)
        ≡ adder_result
            (get_opcode ins)
            (arm_read_register before (get_rn ins))
            (serial_operand before ins).0
            (get_cflag before))
    × (arm_read_cpsr q ≡ (
        if get_s_bit ins == 1
        then (get_bit (arm_read_register q (get_rd ins)) 31 * 8
              + int_of (arm_read_register q (get_rd ins) == 0) * 4
              + arm_read_cpsr q / 2 ^ 28 % 4)
            * 2 ^ 28
          + arm_read_cpsr before % 2 ^ 28
        else arm_read_cpsr before))
arm_step_arithmetic_example =
    arm_step_arithmetic zeros adding adding-IsValid no_bit
      (inl (ap (λ (v : ℕ). get_bits v 27 25) fetched_add)) (rw fetched_add refl)
      (always_runs (arm_fetch adding).core (arm_fetch adding).value fetched_add)
      (rw fetched_add (omega arith))
