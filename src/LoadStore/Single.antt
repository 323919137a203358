-- ===== src/LoadStore/Single.antt =====
-- The word and byte transfers of arm_load_store.c, and their dispatch.
use projet_s5_prog.Base.{ℕ, ◌*◌, ◌^◌, bit_and, bit_or}
use projet_s5_prog.Base.{Bool, not, ◌&&◌, ◌||◌}
use projet_s5_prog.Base.{◌==◌, if◌then◌else◌, truthy, u8}
use projet_s5_prog.Util.{get_bit, Undefined}
use projet_s5_prog.Core.{ArmCore, condition_passed, arm_read_register, arm_read_usr_register}
use projet_s5_prog.Core.{arm_read_cpsr, arm_write_register, arm_write_usr_register, arm_write_cpsr}
use projet_s5_prog.Core.{arm_read_word, arm_read_byte, arm_write_word, arm_write_byte}
use projet_s5_prog.Exception.{undefined_instruction}
use projet_s5_prog.LoadStore.Address.{get_rd, get_rn, get_addr_by_offset, refresh_rn_by_offset}
use projet_s5_prog.LoadStore.Address.{refresh_rn_of_trans}

-- A loaded word goes to the register, or for R15 to the program counter and the T bit.
unfoldable pub load_to_pc : ArmCore → ℕ → ArmCore
load_to_pc p data' =
    let p1 = arm_write_register p 15 (bit_and data' 0xFFFF_FFFE) in
    arm_write_cpsr p1 (bit_or (bit_and (arm_read_cpsr p1) 0xFFFF_FFDF) (get_bit data' 0 * 2 ^ 5))

-- `get_bit(ins, 24) != 0 || get_bit(ins, 21) != 1`
abbrev pub is_not_trans : ℕ → Bool
is_not_trans ins = not (get_bit ins 24 == 0) || not (get_bit ins 21 == 1)

module _ (u : Undefined) where
  -- LDR
  unfoldable pub load_word : ArmCore → ℕ → ℕ × ArmCore
  load_word p ins =
      let addr = get_addr_by_offset u p ins in
      let rd = get_rd ins in
      let p1 =
        if truthy (condition_passed p ins)
        then (let loaded = (arm_read_word p addr).1 in
            if rd == 15 then load_to_pc p loaded else arm_write_register p rd loaded)
        else p in
      (0, refresh_rn_by_offset u p1 ins addr)

  -- LDRB; outside the memory `data` keeps what it held, which was never assigned.
  unfoldable pub load_byte : ArmCore → ℕ → ℕ × ArmCore
  load_byte p ins =
      let addr = get_addr_by_offset u p ins in
      let rd = get_rd ins in
      let p1 =
        if truthy (condition_passed p ins)
        then arm_write_register p rd (arm_read_byte p addr (u8 u.local)).1
        else p in
      (0, refresh_rn_by_offset u p1 ins addr)

  -- LDRBT
  unfoldable pub load_byte_trans : ArmCore → ℕ → ℕ × ArmCore
  load_byte_trans p ins =
      if is_not_trans ins
      then (2, p)
      else (let addr = arm_read_register p (get_rn ins) in
          let rd = get_rd ins in
          let p1 =
            if truthy (condition_passed p ins)
            then arm_write_usr_register p rd (arm_read_byte p addr (u8 u.local)).1
            else p in
          (0, refresh_rn_of_trans u p1 ins))

  -- LDRT
  unfoldable pub load_word_trans : ArmCore → ℕ → ℕ × ArmCore
  load_word_trans p ins =
      if is_not_trans ins
      then (2, p)
      else (let addr = arm_read_register p (get_rn ins) in
          let rd = get_rd ins in
          let p1 =
            if truthy (condition_passed p ins)
            then arm_write_usr_register p rd (arm_read_word p addr).1
            else p in
          (0, refresh_rn_of_trans u p1 ins))

  -- STR
  unfoldable pub store_word : ArmCore → ℕ → ℕ × ArmCore
  store_word p ins =
      let addr = get_addr_by_offset u p ins in
      let rd = get_rd ins in
      let p1 =
        if truthy (condition_passed p ins)
        then (arm_write_word p addr (arm_read_register p rd)).1
        else p in
      (0, refresh_rn_by_offset u p1 ins addr)

  -- STRB
  unfoldable pub store_byte : ArmCore → ℕ → ℕ × ArmCore
  store_byte p ins =
      let addr = get_addr_by_offset u p ins in
      let rd = get_rd ins in
      let p1 =
        if truthy (condition_passed p ins)
        then (arm_write_byte p addr (u8 (arm_read_register p rd))).1
        else p in
      (0, refresh_rn_by_offset u p1 ins addr)

  -- STRBT
  unfoldable pub store_byte_trans : ArmCore → ℕ → ℕ × ArmCore
  store_byte_trans p ins =
      if is_not_trans ins
      then (2, p)
      else (let addr = arm_read_register p (get_rn ins) in
          let rd = get_rd ins in
          let p1 =
            if truthy (condition_passed p ins)
            then (arm_write_byte p addr (u8 (arm_read_usr_register p rd))).1
            else p in
          (0, refresh_rn_of_trans u p1 ins))

  -- STRT
  unfoldable pub store_word_trans : ArmCore → ℕ → ℕ × ArmCore
  store_word_trans p ins =
      if is_not_trans ins
      then (2, p)
      else (let addr = arm_read_register p (get_rn ins) in
          let rd = get_rd ins in
          let p1 =
            if truthy (condition_passed p ins)
            then (arm_write_word p addr (arm_read_usr_register p rd)).1
            else p in
          (0, refresh_rn_of_trans u p1 ins))

  -- `arm_load_store` drops what the transfers return.
  unfoldable pub arm_load_store : ArmCore → ℕ → ℕ × ArmCore
  arm_load_store p ins =
      let bit27 = get_bit ins 27 in
      let bit26 = get_bit ins 26 in
      let bit22 = get_bit ins 22 in
      let bit20 = get_bit ins 20 in
      let trans = (get_bit ins 24 == 0) && (get_bit ins 21 == 1) in
      if (bit27 == 0) && (bit26 == 1)
      then (if (bit22 == 1) && (bit20 == 1)
          then (0, (if trans then load_byte_trans p ins else load_byte p ins).1)
          else if (bit22 == 1) && (bit20 == 0)
          then (0, (if trans then store_byte_trans p ins else store_byte p ins).1)
          else if (bit22 == 0) && (bit20 == 1)
          then (0, (if trans then load_word_trans p ins else load_word p ins).1)
          else if (bit22 == 0) && (bit20 == 0)
          then (0, (if trans then store_word_trans p ins else store_word p ins).1)
          else (undefined_instruction, p))
      else (undefined_instruction, p)
