-- ===== src/LoadStore/Address.antt =====
-- Addressing modes 2 and 3 of arm_load_store.c.
use projet_s5_prog.Base.{ℕ, ◌*◌, ◌/◌, ◌%◌, ◌^◌, bit_and, bit_or}
use projet_s5_prog.Base.{Bool, not, ◌&&◌}
use projet_s5_prog.Base.{◌==◌, if◌then◌else◌, truthy, add32, sub32, shl32, shr32, not32}
use projet_s5_prog.Util.{get_bit, get_bits, Undefined}
use projet_s5_prog.Core.{ArmCore, arm_read_register, arm_read_cpsr, arm_write_register}
use projet_s5_prog.Core.{condition_passed, rotate_right}

-- the field macros
abbrev pub get_u_bit : ℕ → ℕ
get_u_bit x = x / 2 ^ 23 % 2

abbrev pub get_rd : ℕ → ℕ
get_rd x = x / 2 ^ 12 % 2 ^ 4

abbrev pub get_rn : ℕ → ℕ
get_rn x = x / 2 ^ 16 % 2 ^ 4

abbrev pub get_rm : ℕ → ℕ
get_rm x = x % 2 ^ 4

abbrev pub get_offset12 : ℕ → ℕ
get_offset12 x = x % 2 ^ 12

unfoldable pub addr_imm_offset : ArmCore → ℕ → ℕ
addr_imm_offset p ins =
    if get_u_bit ins == 1
    then add32 (arm_read_register p (get_rn ins)) (get_offset12 ins)
    else sub32 (arm_read_register p (get_rn ins)) (get_offset12 ins)

unfoldable pub addr_reg_offset : ArmCore → ℕ → ℕ
addr_reg_offset p ins =
    if get_u_bit ins == 1
    then add32 (arm_read_register p (get_rn ins)) (arm_read_register p (get_rm ins))
    else sub32 (arm_read_register p (get_rn ins)) (arm_read_register p (get_rm ins))

abbrev pub is_immediate_offset : ℕ → Bool
is_immediate_offset ins = get_bit ins 25 == 0

abbrev pub is_register_offset : ℕ → Bool
is_register_offset ins = (get_bit ins 25 == 1) && (get_bits ins 11 4 == 0)

abbrev pub is_scaled_offset : ℕ → Bool
is_scaled_offset ins = (get_bit ins 25 == 1) && not (get_bits ins 11 4 == 0)

abbrev pub is_normal_indexed : ℕ → Bool
is_normal_indexed ins = (get_bit ins 24 == 1) && (get_bit ins 21 == 0)

abbrev pub is_pre_indexed : ℕ → Bool
is_pre_indexed ins = (get_bit ins 24 == 1) && (get_bit ins 21 == 1)

abbrev pub is_post_indexed : ℕ → Bool
is_post_indexed ins = (get_bit ins 24 == 0) && (get_bit ins 21 == 0)

-- the three tests that pick the address, one after the other, for one kind of offset
abbrev pub by_index : (ArmCore → ℕ → ℕ) → ArmCore → ℕ → ℕ
by_index offset p ins =
    let normal = if is_normal_indexed ins then offset p ins else 0 in
    let pre = if is_pre_indexed ins then offset p ins else normal in
    if is_post_indexed ins then arm_read_register p (get_rn ins) else pre

-- the two tests that write the base register back, for one kind of offset
abbrev pub write_back : (ArmCore → ℕ → ℕ) → ArmCore → ℕ → ℕ → ArmCore
write_back offset p ins addr =
    if is_pre_indexed ins
    then arm_write_register p (get_rn ins) addr
    else if is_post_indexed ins
    then arm_write_register p (get_rn ins) (offset p ins)
    else p

module _ (u : Undefined) where
  -- the scaled index of `addr_Sca_Offset`
  unfoldable pub scaled_index : ArmCore → ℕ → ℕ
  scaled_index p ins =
      let rm = arm_read_register p (get_rm ins) in
      let amount = get_bits ins 11 7 in
      if get_bits ins 6 5 == 0
      then shl32 rm amount
      else if get_bits ins 6 5 == 1
      then shr32 rm amount
      else if get_bits ins 6 5 == 2
      then (if amount == 0
          then (if get_bit rm 31 == 1 then 0xFFFF_FFFF else 0)
          else if get_bit rm 31 == 1
          then (let mask = not32 (shr32 0xFFFF_FFFF amount) in bit_and (shr32 rm amount) mask)
          else shr32 rm amount)
      else if amount == 0
      then (let c = get_bit (arm_read_cpsr p) 29 * 2 ^ 31 in bit_or c (rm / 2))
      else rotate_right u rm amount

  unfoldable pub addr_sca_offset : ArmCore → ℕ → ℕ
  addr_sca_offset p ins =
      let index = scaled_index p ins in
      if get_u_bit ins == 1
      then add32 (arm_read_register p (get_rn ins)) index
      else sub32 (arm_read_register p (get_rn ins)) index

  unfoldable pub get_addr_by_offset : ArmCore → ℕ → ℕ
  get_addr_by_offset p ins =
      if is_immediate_offset ins
      then by_index addr_imm_offset p ins
      else if is_register_offset ins
      then by_index addr_reg_offset p ins
      else if is_scaled_offset ins
      then by_index addr_sca_offset p ins
      else 0

  unfoldable pub refresh_rn_by_offset : ArmCore → ℕ → ℕ → ArmCore
  refresh_rn_by_offset p ins addr =
      if truthy (condition_passed p ins)
      then (if is_immediate_offset ins
          then write_back addr_imm_offset p ins addr
          else if is_register_offset ins
          then write_back addr_reg_offset p ins addr
          else if is_scaled_offset ins
          then write_back addr_sca_offset p ins addr
          else p)
      else p

  -- the end of the four transfers with translation, the same text in each
  unfoldable pub refresh_rn_of_trans : ArmCore → ℕ → ArmCore
  refresh_rn_of_trans p ins =
      if truthy (condition_passed p ins)
      then (if is_immediate_offset ins
          then arm_write_register p (get_rn ins) (addr_imm_offset p ins)
          else if is_register_offset ins
          then arm_write_register p (get_rn ins) (addr_reg_offset p ins)
          else if is_scaled_offset ins
          then arm_write_register p (get_rn ins) (addr_sca_offset p ins)
          else p)
      else p

-- addressing mode 3
abbrev pub is_misc_imm_offset : ℕ → Bool
is_misc_imm_offset ins = get_bit ins 22 == 1

abbrev pub is_misc_reg_offset : ℕ → Bool
is_misc_reg_offset ins = get_bit ins 22 == 0

unfoldable pub misc_imm_offset : ArmCore → ℕ → ℕ
misc_imm_offset p ins =
    let offset8 = bit_or (get_bits ins 11 8 * 2 ^ 4) (get_bits ins 3 0) in
    if get_u_bit ins == 1
    then add32 (arm_read_register p (get_rn ins)) offset8
    else sub32 (arm_read_register p (get_rn ins)) offset8

unfoldable pub misc_reg_offset : ArmCore → ℕ → ℕ
misc_reg_offset p ins =
    if get_u_bit ins == 1
    then add32 (arm_read_register p (get_rn ins)) (arm_read_register p (get_rm ins))
    else sub32 (arm_read_register p (get_rn ins)) (arm_read_register p (get_rm ins))

unfoldable pub get_misc_addr_by_offset : ArmCore → ℕ → ℕ
get_misc_addr_by_offset p ins =
    if is_misc_imm_offset ins
    then by_index misc_imm_offset p ins
    else if is_misc_reg_offset ins
    then by_index misc_reg_offset p ins
    else 0

unfoldable pub refresh_misc_rn_by_offset : ArmCore → ℕ → ℕ → ArmCore
refresh_misc_rn_by_offset p ins addr =
    if truthy (condition_passed p ins)
    then (if is_misc_imm_offset ins
        then write_back misc_imm_offset p ins addr
        else if is_misc_reg_offset ins
        then write_back misc_reg_offset p ins addr
        else p)
    else p
