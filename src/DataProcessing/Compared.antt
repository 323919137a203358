-- ===== src/DataProcessing/Compared.antt =====
-- What a comparison leaves for the next condition.
use projet_s5_prog.Base.{ℕ, ◌^◌, ◌<◌, ◌≡◌, ◌≢◌, ◌∙◌, arith}
use projet_s5_prog.Base.{◌==◌, if◌then◌else◌, sub32, int_of, not, ==_ne, bit-cases, inl, inr}
use projet_s5_prog.Util.{get_bit, get_bits, Undefined}
use projet_s5_prog.Core.{ArmCore, arm_read_cpsr, arm_read_register, condition_passed}
use projet_s5_prog.DataProcessing.Fields.{get_opcode, get_rn, get_shifter_operand}
use projet_s5_prog.DataProcessing.Shifter.{get_operande_and_carry_out}
use projet_s5_prog.DataProcessing.{arm_data_processing, cmptst_procedure, cmptst_result}
use projet_s5_prog.DataProcessing.{get_carry}
use projet_s5_prog.DataProcessing.Flags.{modify_nzcv_sets}
use projet_s5_prog.Invariant.{IsValid}
use projet_s5_prog.Invariant.Access.{read_register-lt}
use projet_s5_prog.Invariant.Shifted.{get_shifter_operand-lt}
use projet_s5_prog.Invariant.Data.{get_carry-lt}

module _ (u : Undefined) (p : ArmCore) (ins : ℕ) where
  -- the two words that a comparison compares
  abbrev pub first_operand : ℕ
  first_operand = arm_read_register p (get_rn ins)

  abbrev pub second_operand : ℕ
  second_operand = get_shifter_operand (get_operande_and_carry_out u p ins)

  -- a CMP is dispatched to `cmptst_procedure`
  cmp_dispatched :
      get_opcode ins ≡ 10
      → get_bit ins 20 ≡ 1
      → (arm_data_processing u p ins).1 ≡ (cmptst_procedure u p ins).1
  unfolding arm_data_processing
  cmp_dispatched cmp s = simp (cmp, s)

  cmp_z_flag :
      (first_operand < 2 ^ 32)
      → get_opcode ins ≡ 10
      → condition_passed p ins ≢ 0
      → get_bit (arm_read_cpsr (cmptst_procedure u p ins).1) 30
        ≡ int_of (first_operand == second_operand)
  unfolding cmptst_procedure cmptst_result
  cmp_z_flag small cmp passed =
      simp (cmp, ==_ne _ 0 passed)
        (modify_nzcv_sets p (get_bit (sub32 first_operand second_operand) 31)
          (int_of (sub32 first_operand second_operand == 0))
          (get_carry p first_operand second_operand 2) (get_bit (arm_read_cpsr p) 28) (omega arith)
          (ground arith) (get_carry-lt p first_operand second_operand 2) (omega arith)).1
      ∙ equal_words
    where
      equal_words :
          int_of (sub32 first_operand second_operand == 0)
          ≡ int_of (first_operand == second_operand)
      equal_words = ground (arith, get_shifter_operand-lt (get_operande_and_carry_out u p ins))

eq_condition :
    (p : ArmCore) (next : ℕ)
    → get_bits next 31 28 ≡ 0
    → condition_passed p next ≡ int_of (get_bit (arm_read_cpsr p) 30 == 1)
unfolding condition_passed
eq_condition p next field = rw field

ne_condition :
    (p : ArmCore) (next : ℕ)
    → get_bits next 31 28 ≡ 1
    → condition_passed p next ≡ int_of (get_bit (arm_read_cpsr p) 30 == 0)
unfolding condition_passed
ne_condition p next field = rw field

-- In a valid core, after a CMP whose condition holds, an instruction with the condition EQ (field 0)
-- runs exactly if the two words that the CMP compares are equal, and one with the condition NE
-- (field 1) exactly if they differ.
pub cmp_then_eq :
    (u : Undefined) (t n e : ℕ) (p : ArmCore) (ins next : ℕ)
    → IsValid t n e p
    → get_opcode ins ≡ 10
    → get_bit ins 20 ≡ 1
    → condition_passed p ins ≢ 0
    → get_bits next 31 28 < 2
    → let equal = first_operand u p ins == second_operand u p ins in
      condition_passed (arm_data_processing u p ins).1 next
      ≡ int_of (if get_bits next 31 28 == 0 then equal else not equal)
cmp_then_eq u t n e p ins next h cmp s passed field =
    rw (cmp_dispatched u p ins cmp s) (elim (bit-cases (get_bits next 31 28) field) [
      | inl eq ↦ rw (eq_condition _ next eq, flag, eq) (ground arith)
      | inr ne ↦ rw (ne_condition _ next ne, flag, ne) (ground arith)
    ])
  where
    flag :
        get_bit (arm_read_cpsr (cmptst_procedure u p ins).1) 30
        ≡ int_of (first_operand u p ins == second_operand u p ins)
    flag = cmp_z_flag u p ins (read_register-lt h (get_rn ins)) cmp passed
