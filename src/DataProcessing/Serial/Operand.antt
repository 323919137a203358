-- ===== src/DataProcessing/Serial/Operand.antt =====
-- The decoding of the operands of addressing mode 1 against the shift register.
use projet_s5_prog.Base.{
  ℕ, ◌^◌, ◌<◌, ◌≡◌, ◌≢◌, ◌⊎◌, inl, inr, refl, ◌∙◌, true, false, zero, suc, Bool-cases, arith,
  bit_or,
}
use projet_s5_prog.Base.{◌==◌, if◌then◌else◌, u32}
use projet_s5_prog.Util.{get_bit, get_bits, Undefined}
use projet_s5_prog.Core.{ArmCore}
use projet_s5_prog.Invariant.{IsValid}
use projet_s5_prog.Invariant.Access.{read_register-lt}
use projet_s5_prog.DataProcessing.Fields.{get_cflag}
use projet_s5_prog.DataProcessing.Shifter.{rm_data_of, shift_imm_of, rs_7_0_data_of}
use projet_s5_prog.DataProcessing.Shifter.{lsl_imm, lsl_reg, lsr_imm, lsr_reg, asr_imm, asr_reg}
use projet_s5_prog.DataProcessing.Shifter.{ror_imm, ror_reg, get_operande_and_carry_out}
use projet_s5_prog.DataProcessing.Serial.{times, move_of}
use projet_s5_prog.DataProcessing.Serial.{by_immediate, serial_operand}
use projet_s5_prog.DataProcessing.Serial.Shifts.{
  packed, lsl_reg_lem, lsr_reg_lem, asr_reg_lem, ror_reg_lem, lsl_imm_lem, lsr_imm_lem, asr_imm_lem,
  ror_imm_lem, imm_lem,
}

module _ (u : Undefined) (p : ArmCore) (ins : ℕ) (h : rm_data_of p ins < 2 ^ 32) where
  abbrev rm : ℕ
  rm = rm_data_of p ins

  abbrev carry : ℕ
  carry = get_cflag p

  -- the shifts by an immediate amount and by a register, by the type of the shift
  abbrev amount_operand : ℕ → ℕ
  amount_operand type =
      if type == 0
      then lsl_imm p ins
      else if type == 1
      then lsr_imm p ins
      else if type == 2
      then asr_imm u p ins
      else ror_imm u p ins

  abbrev register_operand : ℕ → ℕ
  register_operand type =
      if type == 0
      then lsl_reg p ins
      else if type == 1
      then lsr_reg p ins
      else if type == 2
      then asr_reg u p ins
      else ror_reg u p ins

  by_amount :
      (type : ℕ)
      → type < 4
      → amount_operand type ≡ packed (by_immediate type (shift_imm_of ins) (rm, carry))
  by_amount zero k = lsl_imm_lem u p ins h
  by_amount (suc zero) k = lsr_imm_lem u p ins h
  by_amount (suc (suc zero)) k = asr_imm_lem u p ins h
  by_amount (suc (suc (suc zero))) k = ror_imm_lem u p ins h
  by_amount (suc (suc (suc (suc type)))) k = absurd (omega arith)

  by_register :
      (type : ℕ)
      → type < 4
      → type ≢ 2 ⊎ rs_7_0_data_of p ins < 32
      → register_operand type ≡ packed (times (rs_7_0_data_of p ins) (move_of type) (rm, carry))
  by_register zero k fits = lsl_reg_lem u p ins h
  by_register (suc zero) k fits = lsr_reg_lem u p ins h
  by_register (suc (suc zero)) k (inl other) = absurd (other refl)
  by_register (suc (suc zero)) k (inr low) = asr_reg_lem u p ins h low
  by_register (suc (suc (suc zero))) k fits = ror_reg_lem u p ins h
  by_register (suc (suc (suc (suc type)))) k fits = absurd (omega arith)

  operand_immediate :
      ((x : ℕ) → x < 2 ^ 8 → bit_or x (u32 (u.shift_left x 32)) ≡ x)
      → get_bits ins 27 25 ≡ 1
      → get_operande_and_carry_out u p ins ≡ packed (serial_operand p ins)
  unfolding get_operande_and_carry_out
  operand_immediate wide one =
      let e : (get_bits ins 27 25 == 1) ≡ true = ground arith in rw e (imm_lem u p ins h wide)

  chosen_amount :
      get_bits ins 27 25 ≡ 0
      → get_bit ins 4 ≡ 0
      → get_operande_and_carry_out u p ins ≡ amount_operand (get_bits ins 6 5)
  unfolding get_operande_and_carry_out
  chosen_amount zero_high low = ground arith

  operand_by_amount :
      get_bits ins 27 25 ≡ 0
      → get_bit ins 4 ≡ 0
      → get_operande_and_carry_out u p ins ≡ packed (serial_operand p ins)
  operand_by_amount zero_high low =
      let e : (get_bits ins 27 25 == 1) ≡ false = ground arith in
      let f : (get_bit ins 4 == 0) ≡ true = ground arith in
      chosen_amount zero_high low ∙ rw (e, f) (by_amount (get_bits ins 6 5) (omega arith))

  chosen_register :
      get_bits ins 27 25 ≡ 0
      → get_bit ins 4 ≡ 1
      → get_bit ins 7 ≡ 0
      → get_operande_and_carry_out u p ins ≡ register_operand (get_bits ins 6 5)
  unfolding get_operande_and_carry_out
  chosen_register zero_high high seven = ground arith

  operand_by_register :
      get_bits ins 27 25 ≡ 0
      → get_bit ins 4 ≡ 1
      → get_bit ins 7 ≡ 0
      → get_bits ins 6 5 ≢ 2 ⊎ rs_7_0_data_of p ins < 32
      → get_operande_and_carry_out u p ins ≡ packed (serial_operand p ins)
  operand_by_register zero_high high seven fits =
      let e : (get_bits ins 27 25 == 1) ≡ false = ground arith in
      let f : (get_bit ins 4 == 0) ≡ false = ground arith in
      chosen_register zero_high high seven
      ∙ rw (e, f) (by_register (get_bits ins 6 5) (omega arith) fits)

-- an immediate operand, a shift by an immediate amount, LSL, LSR or ROR by a register, or ASR by a
-- register that holds less than 32
abbrev pub IsShifted : ArmCore → ℕ → Type 0
IsShifted p ins =
    get_bits ins 27 25 ≡ 1
    ⊎ get_bits ins 27 25 ≡ 0
      × (get_bit ins 4 ≡ 0 ⊎ get_bit ins 7 ≡ 0 × (get_bits ins 6 5 ≢ 2 ⊎ rs_7_0_data_of p ins < 32))

-- For a valid processor, `get_operande_and_carry_out` returns the packed operand and carry of a
-- register that is moved bit by bit: for every immediate operand, every shift of a register by an
-- immediate amount, LSL, LSR and ROR by any amount in a register, and ASR by an amount in a register
-- that is below 32. For an immediate operand that is not rotated, the shift by 32 that the source
-- leaves to the machine adds no bit, by hypothesis.
pub operande_and_carry_out_moves :
    {t n e : ℕ} (u : Undefined) (p : ArmCore) (ins : ℕ)
    → IsValid t n e p
    → ((x : ℕ) → x < 2 ^ 8 → bit_or x (u32 (u.shift_left x 32)) ≡ x)
    → IsShifted p ins
    → get_operande_and_carry_out u p ins ≡ packed (serial_operand p ins)
operande_and_carry_out_moves u p ins valid wide form =
    let rm-lt : rm_data_of p ins < 2 ^ 32 = read_register-lt valid (get_bits ins 3 0) in
    elim form [
      | inl one ↦ operand_immediate u p ins rm-lt wide one
      | inr (zero_high, inl low) ↦ operand_by_amount u p ins rm-lt zero_high low
      | inr (zero_high, inr (seven, fits)) ↦ elim (Bool-cases (get_bit ins 4 == 0)) [
        | inl low ↦ operand_by_amount u p ins rm-lt zero_high (ground arith)
        | inr high ↦ operand_by_register u p ins rm-lt zero_high (ground arith) seven fits
      ]
    ]
