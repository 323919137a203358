-- ===== src/DataProcessing/Serial/Shifts.antt =====
-- Each shifter operand of addressing mode 1 against the shift register.
use projet_s5_prog.Base.{ℕ, ◌*◌, ◌/◌, ◌%◌, ◌^◌, ◌<◌, ◌≡◌, refl, ap, ◌∙◌, true, arith, bit_or}
use projet_s5_prog.Base.{◌==◌, if◌then◌else◌, u32}
use projet_s5_prog.Base.Mask.{bit_or_fields}
use projet_s5_prog.Util.{get_bit, get_bits, Undefined}
use native.Mathlib.Decide.{dec_lt}
use projet_s5_prog.Core.{rotate_right, ArmCore}
use projet_s5_prog.Core.Rotate.{rotate_right-rotated}
use projet_s5_prog.DataProcessing.Fields.{get_cflag, packing_shifter}
use projet_s5_prog.DataProcessing.SignedShift.{arithmetic_shift_right-floor}
use projet_s5_prog.DataProcessing.Shifter.{rm_data_of, shift_imm_of, rs_7_0_data_of}
use projet_s5_prog.DataProcessing.Shifter.{lsl_imm, lsl_reg, lsr_imm, lsr_reg, asr_imm, asr_reg}
use projet_s5_prog.DataProcessing.Shifter.{ror_imm, ror_reg, rrx, imm}
use projet_s5_prog.DataProcessing.Serial.{left, right, signed_right, around, times}
use projet_s5_prog.DataProcessing.Serial.{by_immediate}
use projet_s5_prog.DataProcessing.Serial.Closed.{signed_word}
use projet_s5_prog.DataProcessing.Serial.Amount.{left_by, left_out, right_by, right_out}
use projet_s5_prog.DataProcessing.Serial.Amount.{signed_out, around_by, around_out, rotated_top}

abbrev pub packed : ℕ × ℕ → ℕ
packed s = packing_shifter s.0 s.1

same_packed : (w o : ℕ) → (s : ℕ × ℕ) → s.0 ≡ w → s.1 ≡ o → packing_shifter w o ≡ packed s
same_packed w o s e f = cc

-- 32 signed moves leave the sign in every bit.
all_sign :
    (n x c : ℕ)
    → x < 2 ^ 32
    → n ≡ 32
    → packing_shifter (if get_bit x 31 == 0 then 0 else 0xFFFF_FFFF) (get_bit x 31)
      ≡ packed (times n signed_right (x, c))
all_sign n x c h e =
    let word : (times n signed_right (x, c)).0 ≡ (if get_bit x 31 == 0 then 0 else 0xFFFF_FFFF) =
      signed_word n x c h (omega arith) ∙ rw e (ground arith) in
    let out : (times n signed_right (x, c)).1 ≡ get_bit x 31 =
      signed_out n x c h (omega arith) ∙ rw e refl in
    same_packed _ _ _ word out

-- `rotateRight` by 0 shifts by 32.
rotate_none :
    (u : Undefined) (x : ℕ)
    → x < 2 ^ 32
    → bit_or x (u32 (u.shift_left x 32)) ≡ x
    → rotate_right u x 0 ≡ x
unfolding rotate_right
rotate_none u x h wide = ground (arith, wide)

module _ (u : Undefined) (p : ArmCore) (ins : ℕ) (h : rm_data_of p ins < 2 ^ 32) where
  abbrev rm : ℕ
  rm = rm_data_of p ins

  abbrev carry : ℕ
  carry = get_cflag p

  pub lsl_reg_lem : lsl_reg p ins ≡ packed (times (rs_7_0_data_of p ins) left (rm, carry))
  unfolding lsl_reg
  lsl_reg_lem =
      let n = rs_7_0_data_of p ins in ground (arith, left_by n rm carry h, left_out n rm carry h)

  pub lsr_reg_lem : lsr_reg p ins ≡ packed (times (rs_7_0_data_of p ins) right (rm, carry))
  unfolding lsr_reg
  lsr_reg_lem =
      let n = rs_7_0_data_of p ins in ground (arith, right_by n rm carry h, right_out n rm carry h)

  pub asr_reg_lem :
      rs_7_0_data_of p ins < 32
      → asr_reg u p ins ≡ packed (times (rs_7_0_data_of p ins) signed_right (rm, carry))
  unfolding asr_reg
  asr_reg_lem k =
      let n = rs_7_0_data_of p ins in
      ground (
        arith,
        signed_word n rm carry h (omega arith),
        signed_out n rm carry h (omega arith),
        arithmetic_shift_right-floor u rm n h,
      )

  pub ror_reg_lem : ror_reg u p ins ≡ packed (times (rs_7_0_data_of p ins) around (rm, carry))
  unfolding ror_reg
  ror_reg_lem =
      let n = rs_7_0_data_of p ins in
      ground (
        arith,
        around_by n rm carry h,
        around_out n rm carry h,
        rotate_right-rotated u rm (n % 32) h,
      )

  pub lsl_imm_lem : lsl_imm p ins ≡ packed (by_immediate 0 (shift_imm_of ins) (rm, carry))
  unfolding lsl_imm
  lsl_imm_lem =
      let n = shift_imm_of ins in ground (arith, left_by n rm carry h, left_out n rm carry h)

  pub lsr_imm_lem : lsr_imm p ins ≡ packed (by_immediate 1 (shift_imm_of ins) (rm, carry))
  unfolding lsr_imm
  lsr_imm_lem =
      let n = shift_imm_of ins in
      ground (
        arith,
        right_by n rm carry h,
        right_out n rm carry h,
        right_by 32 rm carry h,
        right_out 32 rm carry h,
      )

  pub asr_imm_lem : asr_imm u p ins ≡ packed (by_immediate 2 (shift_imm_of ins) (rm, carry))
  unfolding asr_imm
  asr_imm_lem =
      let n = shift_imm_of ins in
      elim (dec_lt 0 n) [
        | yes some_moves ↦ ground (
          arith,
          signed_word n rm carry h (omega arith),
          signed_out n rm carry h (omega arith),
          arithmetic_shift_right-floor u rm n h some_moves (omega arith),
        )
        | no all_moves ↦
            let e : (shift_imm_of ins == 0) ≡ true = ground arith in
            rw e (all_sign 32 rm carry h refl)
      ]

  pub ror_imm_lem : ror_imm u p ins ≡ packed (by_immediate 3 (shift_imm_of ins) (rm, carry))
  unfolding ror_imm rrx
  ror_imm_lem =
      let n = shift_imm_of ins in
      ground (
        arith,
        around_by n rm carry h,
        around_out n rm carry h,
        rotate_right-rotated u rm n h,
        bit_or_fields 31 carry (rm / 2) (omega arith),
      )

  pub imm_lem :
      ((x : ℕ) → x < 2 ^ 8 → bit_or x (u32 (u.shift_left x 32)) ≡ x)
      → imm u p ins ≡ packed (times (2 * get_bits ins 11 8) around (get_bits ins 7 0, carry))
  unfolding imm
  imm_lem wide =
      let n = 2 * get_bits ins 11 8 in
      let x = get_bits ins 7 0 in
      let unmoved = rotate_none u x (omega arith) (wide x (omega arith)) in
      elim (dec_lt 0 n) [
        | yes moves ↦ ground (
          arith,
          around_by n x carry (omega arith),
          around_out n x carry (omega arith),
          rotate_right-rotated u x n (omega arith) moves (omega arith),
          rotated_top x n (omega arith) moves (omega arith),
        )
        | no stays ↦
            let none_left : n ≡ 0 = omega arith in
            ground (
              arith,
              unmoved,
              ap (λ (t : ℕ). (times t around (x, carry)).0) none_left,
              ap (λ (t : ℕ). (times t around (x, carry)).1) none_left,
              ap (λ (t : ℕ). rotate_right u x t) none_left,
            )
      ]
