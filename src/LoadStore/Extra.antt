-- ===== src/LoadStore/Extra.antt =====
-- The half-word, signed and double-word transfers of arm_load_store.c, and their dispatch.
use projet_s5_prog.Base.{ℕ, ◌+◌, ◌%◌, bit_or}
use projet_s5_prog.Base.{Bool, not, ◌&&◌}
use projet_s5_prog.Base.{◌==◌, if◌then◌else◌, truthy, u8, u16, add32}
use projet_s5_prog.Util.{get_bit, get_bits, Undefined}
use projet_s5_prog.Core.{ArmCore, condition_passed, arm_read_register, arm_write_register}
use projet_s5_prog.Core.{
  arm_read_byte, arm_read_half, arm_read_word, arm_write_half, arm_write_word,
}
use projet_s5_prog.Exception.{undefined_instruction}
use projet_s5_prog.LoadStore.Address.{get_rd, get_misc_addr_by_offset, refresh_misc_rn_by_offset}

-- `(rd % 2 == 0) && (rd != 14)`, and the alignment to 8 bytes
abbrev pub is_pair : ℕ → Bool
is_pair rd = (rd % 2 == 0) && not (rd == 14)

abbrev pub is_double_aligned : ℕ → Bool
is_double_aligned addr = (get_bits addr 1 0 == 0) && (get_bit addr 2 == 0)

-- LDRD; a misaligned address loads nothing, and still writes the base back.
unfoldable pub load_double_word : ArmCore → ℕ → ℕ × ArmCore
load_double_word p ins =
    let addr = get_misc_addr_by_offset p ins in
    let rd = get_rd ins in
    if truthy (condition_passed p ins)
    then (if is_pair rd
        then (let p1 =
              if is_double_aligned addr
              then (let data1 = (arm_read_word p addr).1 in
                  let data2 = (arm_read_word p (add32 addr 4)).1 in
                  arm_write_register (arm_write_register p rd data1) (rd + 1) data2)
              else p in
            (0, refresh_misc_rn_by_offset p1 ins addr))
        else (undefined_instruction, p))
    else (0, refresh_misc_rn_by_offset p ins addr)

-- LDRH
unfoldable pub load_half : ArmCore → ℕ → ℕ × ArmCore
load_half p ins =
    let addr = get_misc_addr_by_offset p ins in
    let rd = get_rd ins in
    if truthy (condition_passed p ins)
    then (if get_bit addr 0 == 0
        then (let p1 = arm_write_register p rd (arm_read_half p addr).1 in
            (0, refresh_misc_rn_by_offset p1 ins addr))
        else (undefined_instruction, p))
    else (0, refresh_misc_rn_by_offset p ins addr)

-- LDRSH
unfoldable pub load_signed_half : ArmCore → ℕ → ℕ × ArmCore
load_signed_half p ins =
    let addr = get_misc_addr_by_offset p ins in
    let rd = get_rd ins in
    if truthy (condition_passed p ins)
    then (if get_bit addr 0 == 0
        then (let half = (arm_read_half p addr).1 in
            let data32 = if get_bit half 15 == 0 then half else bit_or half 0xFFFF_0000 in
            let p1 = arm_write_register p rd data32 in (0, refresh_misc_rn_by_offset p1 ins addr))
        else (undefined_instruction, p))
    else (0, refresh_misc_rn_by_offset p ins addr)

-- STRD
unfoldable pub store_double_word : ArmCore → ℕ → ℕ × ArmCore
store_double_word p ins =
    let addr = get_misc_addr_by_offset p ins in
    let rd = get_rd ins in
    if truthy (condition_passed p ins)
    then (if is_pair rd
        then (let p1 =
              if is_double_aligned addr
              then (let data1 = arm_read_register p rd in
                  let data2 = arm_read_register p (rd + 1) in
                  let p' = (arm_write_word p addr data1).1 in
                  (arm_write_word p' (add32 addr 4) data2).1)
              else p in
            (0, refresh_misc_rn_by_offset p1 ins addr))
        else (undefined_instruction, p))
    else (0, refresh_misc_rn_by_offset p ins addr)

-- STRH
unfoldable pub store_half : ArmCore → ℕ → ℕ × ArmCore
store_half p ins =
    let addr = get_misc_addr_by_offset p ins in
    let rd = get_rd ins in
    if truthy (condition_passed p ins)
    then (if get_bit addr 0 == 0
        then (let p1 = (arm_write_half p addr (u16 (arm_read_register p rd))).1 in
            (0, refresh_misc_rn_by_offset p1 ins addr))
        else (undefined_instruction, p))
    else (0, refresh_misc_rn_by_offset p ins addr)

module _ (u : Undefined) where
  -- LDRSB; outside the memory `data` keeps what it held, which was never assigned.
  unfoldable pub load_signed_byte : ArmCore → ℕ → ℕ × ArmCore
  load_signed_byte p ins =
      let addr = get_misc_addr_by_offset p ins in
      let rd = get_rd ins in
      let p1 =
        if truthy (condition_passed p ins)
        then (let byte = (arm_read_byte p addr (u8 u.local)).1 in
            let data32 = if get_bit byte 7 == 0 then byte else bit_or byte 0xFFFF_FF00 in
            arm_write_register p rd data32)
        else p in
      (0, refresh_misc_rn_by_offset p1 ins addr)

  -- `arm_load_store_extra` drops what the transfers return.
  unfoldable pub arm_load_store_extra : ArmCore → ℕ → ℕ × ArmCore
  arm_load_store_extra p ins =
      let bit20 = get_bit ins 20 in
      let bit6 = get_bit ins 6 in
      let bit5 = get_bit ins 5 in
      if (get_bit ins 27 == 0)
        && (get_bit ins 26 == 0)
        && (get_bit ins 25 == 0)
        && (get_bit ins 7 == 1)
        && (get_bit ins 4 == 1)
      then (if (bit20 == 0) && (bit6 == 1) && (bit5 == 0)
          then (0, (load_double_word p ins).1)
          else if (bit20 == 1) && (bit6 == 0) && (bit5 == 1)
          then (0, (load_half p ins).1)
          else if (bit20 == 1) && (bit6 == 1) && (bit5 == 0)
          then (0, (load_signed_byte p ins).1)
          else if (bit20 == 1) && (bit6 == 1) && (bit5 == 1)
          then (0, (load_signed_half p ins).1)
          else if (bit20 == 0) && (bit6 == 1) && (bit5 == 1)
          then (0, (store_double_word p ins).1)
          else if (bit20 == 0) && (bit6 == 0) && (bit5 == 1)
          then (0, (store_half p ins).1)
          else (undefined_instruction, p))
      else (undefined_instruction, p)
