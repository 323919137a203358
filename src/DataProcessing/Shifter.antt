-- ===== src/DataProcessing/Shifter.antt =====
-- The shifter operands of arm_data_processing.c (addressing mode 1): each returns the operand and
-- the carry out, packed.
use projet_s5_prog.Base.{ℕ, ◌-◌, ◌*◌, ◌/◌, ◌^◌, bit_or}
use projet_s5_prog.Base.{ltb, ◌==◌, if◌then◌else◌, u8, shl32, shr32}
use projet_s5_prog.Util.{get_bit, get_bits, Undefined}
use projet_s5_prog.Core.{ArmCore, arm_read_register, rotate_right}
use projet_s5_prog.DataProcessing.Fields.{get_cflag, packing_shifter, arithmetic_shift_right}

-- the fields of the operand: Rm, the amount of an immediate shift, and the low byte of Rs
abbrev pub rm_data_of : ArmCore → ℕ → ℕ
rm_data_of p ins = arm_read_register p (get_bits ins 3 0)

abbrev pub shift_imm_of : ℕ → ℕ
shift_imm_of ins = get_bits ins 11 7

abbrev pub rs_7_0_data_of : ArmCore → ℕ → ℕ
rs_7_0_data_of p ins = u8 (arm_read_register p (get_bits ins 11 8))

unfoldable pub reg : ArmCore → ℕ → ℕ
reg p ins = packing_shifter (rm_data_of p ins) (get_cflag p)

-- The shift amounts are below 32 wherever `<<` and `>>` are written out here.
unfoldable pub lsl_imm : ArmCore → ℕ → ℕ
lsl_imm p ins =
    let rm_data = rm_data_of p ins in
    let shift_imm = shift_imm_of ins in
    if shift_imm == 0
    then packing_shifter rm_data (get_cflag p)
    else packing_shifter (shl32 rm_data shift_imm) (get_bit rm_data (32 - shift_imm))

unfoldable pub lsl_reg : ArmCore → ℕ → ℕ
lsl_reg p ins =
    let rs_7_0_data = rs_7_0_data_of p ins in
    let rm_data = rm_data_of p ins in
    if rs_7_0_data == 0
    then packing_shifter rm_data (get_cflag p)
    else if ltb rs_7_0_data 32
    then packing_shifter (shl32 rm_data rs_7_0_data) (get_bit rm_data (32 - rs_7_0_data))
    else if rs_7_0_data == 32
    then packing_shifter 0 (get_bit rm_data 0)
    else packing_shifter 0 0

unfoldable pub lsr_reg : ArmCore → ℕ → ℕ
lsr_reg p ins =
    let rs_7_0_data = rs_7_0_data_of p ins in
    let rm_data = rm_data_of p ins in
    if rs_7_0_data == 0
    then packing_shifter rm_data (get_cflag p)
    else if ltb rs_7_0_data 32
    then packing_shifter (shr32 rm_data rs_7_0_data) (get_bit rm_data (rs_7_0_data - 1))
    else if rs_7_0_data == 32
    then packing_shifter 0 (get_bit rm_data 31)
    else packing_shifter 0 0

unfoldable pub lsr_imm : ArmCore → ℕ → ℕ
lsr_imm p ins =
    let rm_data = rm_data_of p ins in
    let shift_imm = shift_imm_of ins in
    if shift_imm == 0
    then packing_shifter 0 (get_bit rm_data 31)
    else packing_shifter (shr32 rm_data shift_imm) (get_bit rm_data (shift_imm - 1))

unfoldable pub rrx : ArmCore → ℕ → ℕ
rrx p ins =
    let rm_data = rm_data_of p ins in
    packing_shifter (bit_or (get_cflag p * 2 ^ 31) (rm_data / 2)) (get_bit rm_data 0)

module _ (u : Undefined) where
  unfoldable pub imm : ArmCore → ℕ → ℕ
  imm p ins =
      let immed_8 = get_bits ins 7 0 in
      let rotate_imm = get_bits ins 11 8 in
      let shifter_operand = rotate_right u immed_8 (2 * rotate_imm) in
      packing_shifter shifter_operand
        (if rotate_imm == 0 then get_cflag p else get_bit shifter_operand 31)

  unfoldable pub asr_imm : ArmCore → ℕ → ℕ
  asr_imm p ins =
      let rm_data = rm_data_of p ins in
      let shift_imm = shift_imm_of ins in
      if shift_imm == 0
      then packing_shifter (if get_bit rm_data 31 == 0 then 0 else 0xFFFF_FFFF) (get_bit rm_data 31)
      else packing_shifter (arithmetic_shift_right u rm_data shift_imm)
          (get_bit rm_data (shift_imm - 1))

  unfoldable pub asr_reg : ArmCore → ℕ → ℕ
  asr_reg p ins =
      let rs_7_0_data = rs_7_0_data_of p ins in
      let rm_data = rm_data_of p ins in
      if rs_7_0_data == 0
      then packing_shifter rm_data (get_cflag p)
      else if ltb rs_7_0_data 32
      then packing_shifter (arithmetic_shift_right u rm_data rs_7_0_data)
          (get_bit rm_data (rs_7_0_data - 1))
      else if rs_7_0_data == 32
      then packing_shifter 0 (get_bit rm_data 31)
      else packing_shifter 0xFFFF_FFFF 0

  unfoldable pub ror_imm : ArmCore → ℕ → ℕ
  ror_imm p ins =
      let rm_data = rm_data_of p ins in
      let shift_imm = shift_imm_of ins in
      if shift_imm == 0
      then rrx p ins
      else packing_shifter (rotate_right u rm_data shift_imm) (get_bit rm_data (shift_imm - 1))

  unfoldable pub ror_reg : ArmCore → ℕ → ℕ
  ror_reg p ins =
      let rs_7_0_data = rs_7_0_data_of p ins in
      let rs_4_0_data = get_bits rs_7_0_data 4 0 in
      let rm_data = rm_data_of p ins in
      if rs_7_0_data == 0
      then packing_shifter rm_data (get_cflag p)
      else if rs_4_0_data == 0
      then packing_shifter rm_data (get_bit rm_data 31)
      else packing_shifter (rotate_right u rm_data rs_4_0_data) (get_bit rm_data (rs_4_0_data - 1))

  -- The test for `rrx` stands behind that for `ror_imm`, as in the source.
  unfoldable pub get_operande_and_carry_out : ArmCore → ℕ → ℕ
  get_operande_and_carry_out p ins =
      if get_bits ins 27 25 == 1
      then imm p ins
      else if get_bits ins 27 25 == 0
      then (if get_bit ins 4 == 0
          then (if get_bits ins 6 4 == 0
              then lsl_imm p ins
              else if get_bits ins 6 4 == 2
              then lsr_imm p ins
              else if get_bits ins 6 4 == 4
              then asr_imm p ins
              else if get_bits ins 6 4 == 6
              then ror_imm p ins
              else if get_bits ins 11 4 == 6
              then rrx p ins
              else 0)
          else if get_bits ins 11 4 == 0
          then reg p ins
          else if get_bits ins 7 4 == 1
          then lsl_reg p ins
          else if get_bits ins 7 4 == 3
          then lsr_reg p ins
          else if get_bits ins 7 4 == 5
          then asr_reg p ins
          else if get_bits ins 7 4 == 7
          then ror_reg p ins
          else 0)
      else 0
