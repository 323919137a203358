-- ===== src/Invariant/Shifted.antt =====
-- The shifter operand is a word and its carry a binary digit.
use projet_s5_prog.Base.{ℕ, ◌+◌, ◌*◌, ◌/◌, ◌%◌, ◌^◌, ◌<◌, ◌≡◌, arith}
use projet_s5_prog.Base.{◌==◌, if_both}
use projet_s5_prog.Base.Mask.{bit_or_fields, bit_and_mask}
use projet_s5_prog.Util.{get_bit, get_bits, Undefined}
use projet_s5_prog.Core.{ArmCore}
use projet_s5_prog.DataProcessing.Fields.{get_cflag, packing_shifter, get_shifter_operand}
use projet_s5_prog.DataProcessing.Fields.{get_shifter_carry_out}
use projet_s5_prog.DataProcessing.Shifter.{get_operande_and_carry_out, reg, lsl_imm, lsl_reg}
use projet_s5_prog.DataProcessing.Shifter.{
  lsr_imm, lsr_reg, asr_imm, asr_reg, rrx, ror_imm, ror_reg,
}
use projet_s5_prog.DataProcessing.Shifter.{imm}

-- Unpacking gives back what was packed, for an operand and a carry of 32 bits.
pub packing_shifter_unpacks :
    (so co : ℕ)
    → so < 2 ^ 32
    → co < 2 ^ 32
    → (get_shifter_operand (packing_shifter so co) ≡ so)
      × (get_shifter_carry_out (packing_shifter so co) ≡ co)
unfolding packing_shifter get_shifter_operand get_shifter_carry_out
packing_shifter_unpacks so co hs hc =
    ground
      (arith, bit_or_fields 32 so co hc, bit_and_mask 32 so, bit_and_mask 32 (so * 2 ^ 32 + co))

pub get_shifter_operand-lt : (x : ℕ) → get_shifter_operand x < 2 ^ 32
unfolding get_shifter_operand
get_shifter_operand-lt x = omega (arith, bit_and_mask 32 (x / 2 ^ 32))

abbrev pub HasCarry : ℕ → Type 0
HasCarry x = get_shifter_carry_out x < 2

packed-HasCarry : (so co : ℕ) → co < 2 → HasCarry (packing_shifter so co)
unfolding packing_shifter get_shifter_carry_out
packed-HasCarry so co h =
    ground (arith, bit_or_fields 32 (so % 2 ^ 32) co, bit_and_mask 32 (so % 2 ^ 32 * 2 ^ 32 + co))

zero-HasCarry : HasCarry 0
unfolding get_shifter_carry_out
zero-HasCarry = omega arith

pub get_cflag-lt : (p : ArmCore) → get_cflag p < 2
unfolding get_cflag
get_cflag-lt p = omega arith

bit-lt : (x i : ℕ) → get_bit x i < 2
bit-lt x i = omega arith

module _ (p : ArmCore) (ins : ℕ) where
  reg_carry : HasCarry (reg p ins)
  unfolding reg
  reg_carry = grind (arith, packed-HasCarry, get_cflag-lt)

  lsl_imm_carry : HasCarry (lsl_imm p ins)
  unfolding lsl_imm
  lsl_imm_carry = grind (arith, packed-HasCarry, get_cflag-lt)

  lsr_imm_carry : HasCarry (lsr_imm p ins)
  unfolding lsr_imm
  lsr_imm_carry = grind (arith, packed-HasCarry, get_cflag-lt)

  lsl_reg_carry : HasCarry (lsl_reg p ins)
  unfolding lsl_reg
  lsl_reg_carry = grind (arith, packed-HasCarry, get_cflag-lt)

  lsr_reg_carry : HasCarry (lsr_reg p ins)
  unfolding lsr_reg
  lsr_reg_carry = grind (arith, packed-HasCarry, get_cflag-lt)

  rrx_carry : HasCarry (rrx p ins)
  unfolding rrx
  rrx_carry = grind (arith, packed-HasCarry, get_cflag-lt)

module _ (u : Undefined) (p : ArmCore) (ins : ℕ) where
  imm_carry : HasCarry (imm u p ins)
  unfolding imm
  imm_carry = grind (arith, packed-HasCarry, get_cflag-lt)

  asr_imm_carry : HasCarry (asr_imm u p ins)
  unfolding asr_imm
  asr_imm_carry = grind (arith, packed-HasCarry, get_cflag-lt)

  asr_reg_carry : HasCarry (asr_reg u p ins)
  unfolding asr_reg
  asr_reg_carry = grind (arith, packed-HasCarry, get_cflag-lt)

  ror_imm_carry : HasCarry (ror_imm u p ins)
  unfolding ror_imm
  ror_imm_carry = grind (arith, packed-HasCarry, get_cflag-lt, rrx_carry p ins)

  ror_reg_carry : HasCarry (ror_reg u p ins)
  unfolding ror_reg
  ror_reg_carry = grind (arith, packed-HasCarry, get_cflag-lt)

  -- The carry of every shifter operand is 0 or 1.
  pub shifter_carry : HasCarry (get_operande_and_carry_out u p ins)
  unfolding get_operande_and_carry_out
  shifter_carry = if_both HasCarry (get_bits ins 27 25 == 1) imm_carry (
      if_both HasCarry (get_bits ins 27 25 == 0)
        (if_both HasCarry (get_bit ins 4 == 0)
          (if_both HasCarry (get_bits ins 6 4 == 0) (lsl_imm_carry p ins) (
            if_both HasCarry (get_bits ins 6 4 == 2) (lsr_imm_carry p ins) (
              if_both HasCarry (get_bits ins 6 4 == 4) asr_imm_carry (
                if_both HasCarry (get_bits ins 6 4 == 6) ror_imm_carry
                  (if_both HasCarry (get_bits ins 11 4 == 6) (rrx_carry p ins) zero-HasCarry)))))
          (if_both HasCarry (get_bits ins 11 4 == 0) (reg_carry p ins) (
            if_both HasCarry (get_bits ins 7 4 == 1) (lsl_reg_carry p ins) (
              if_both HasCarry (get_bits ins 7 4 == 3) (lsr_reg_carry p ins) (
                if_both HasCarry (get_bits ins 7 4 == 5) asr_reg_carry
                  (if_both HasCarry (get_bits ins 7 4 == 7) ror_reg_carry zero-HasCarry))))))
        zero-HasCarry)

  pub shifter_carry-lt : get_shifter_carry_out (get_operande_and_carry_out u p ins) < 2
  shifter_carry-lt = shifter_carry
