-- ===== src/LoadStore/ByteTrip.antt =====
-- STRB and LDRB at one address.
use projet_s5_prog.Base.{ℕ, ◌%◌, ◌^◌, ◌<◌, ◌≤◌, ◌≡◌, ◌≢◌, arith, refl, u8}
use projet_s5_prog.Base.{ltb, if◌then◌else◌, ==_ne}
use native.Mathlib.Decide.{dec_lt}
use projet_s5_prog.Util.{get_bit, Undefined}
use projet_s5_prog.Memory.Bytes.{read_byte-write_byte}
use projet_s5_prog.Core.Written.{written_register}
use projet_s5_prog.Core.{ArmCore, condition_passed, arm_read_register, arm_read_cpsr}
use projet_s5_prog.Core.{arm_write_byte, arm_read_byte, arm_write_register}
use projet_s5_prog.LoadStore.Address.{get_rd, get_addr_by_offset, addr_imm_offset}
use projet_s5_prog.LoadStore.Address.{addr_reg_offset, addr_sca_offset, scaled_index}
use projet_s5_prog.LoadStore.Single.{load_byte, store_byte}
use projet_s5_prog.LoadStore.RoundTrip.{refresh_rn_after}

module _ (u : Undefined) (p : ArmCore) (ins : ℕ) where
  -- the address and the condition are read off the registers
  address_kept :
      (a v : ℕ) → get_addr_by_offset u (arm_write_byte p a v).1 ins ≡ get_addr_by_offset u p ins
  unfolding get_addr_by_offset addr_imm_offset addr_reg_offset addr_sca_offset scaled_index
      arm_read_register arm_read_cpsr arm_write_byte
  address_kept a v = refl

  condition_kept :
      (a v : ℕ) → condition_passed (arm_write_byte p a v).1 ins ≡ condition_passed p ins
  unfolding condition_passed arm_read_cpsr arm_write_byte
  condition_kept a v = refl

  store_byte_effect :
      condition_passed p ins ≢ 0
      → get_bit ins 24 ≡ 1
      → get_bit ins 21 ≡ 0
      → (store_byte u p ins).1
        ≡ (arm_write_byte p (get_addr_by_offset u p ins) (u8 (arm_read_register p (get_rd ins)))).1
  unfolding store_byte
  store_byte_effect passed p_bit w_bit =
      rw (==_ne _ 0 passed) (refresh_rn_after u p ins _ _ p_bit w_bit)

  load_byte_effect :
      condition_passed p ins ≢ 0
      → get_bit ins 24 ≡ 1
      → get_bit ins 21 ≡ 0
      → (load_byte u p ins).1
        ≡ arm_write_register p
            (get_rd ins)
            (arm_read_byte p (get_addr_by_offset u p ins) (u8 u.local)).1
  unfolding load_byte
  load_byte_effect passed p_bit w_bit =
      rw (==_ne _ 0 passed) (refresh_rn_after u p ins _ _ p_bit w_bit)

byte_back :
    (p : ArmCore) (a v old : ℕ)
    → a < p.mem.size
    → (arm_read_byte (arm_write_byte p a v).1 a old).1 ≡ v
unfolding arm_read_byte arm_write_byte
byte_back p a v old inside = rw (read_byte-write_byte p.mem a a v old) (ground arith)

byte_lost :
    (p : ArmCore) (a v old : ℕ)
    → p.mem.size ≤ a
    → (arm_read_byte (arm_write_byte p a v).1 a old).1 ≡ old
unfolding arm_read_byte arm_write_byte
byte_lost p a v old outside = rw (read_byte-write_byte p.mem a a v old) (ground arith)

-- STRB and then LDRB with offset addressing (P set, W clear), under conditions that hold, at the same
-- address: the register that LDRB loads, other than R15, reads as the low byte of the register that
-- STRB stored where the address lies in the memory, and as the byte that was never assigned
-- where it does not.
pub store_byte-load_byte :
    (u : Undefined) (p : ArmCore) (st ld : ℕ)
    → (condition_passed p st ≢ 0) × (get_bit st 24 ≡ 1) × (get_bit st 21 ≡ 0)
    → (condition_passed p ld ≢ 0) × (get_bit ld 24 ≡ 1) × (get_bit ld 21 ≡ 0)
    → get_rd ld ≢ 15
    → get_addr_by_offset u p ld ≡ get_addr_by_offset u p st
    → arm_read_register (load_byte u (store_byte u p st).1 ld).1 (get_rd ld) ≡ (
        if ltb (get_addr_by_offset u p st) p.mem.size
        then arm_read_register p (get_rd st) % 2 ^ 8
        else u.local % 2 ^ 8)
store_byte-load_byte u p st ld (sp, s24, s21) (lp, l24, l21) other same =
    let a = get_addr_by_offset u p st in
    let v = u8 (arm_read_register p (get_rd st)) in
    let stored = (arm_write_byte p a v).1 in
    let passed : condition_passed stored ld ≢ 0 = rw (condition_kept u p ld a v) lp in
    let loaded = load_byte_effect u stored ld passed l24 l21 in
    rw
      (
        store_byte_effect u p st sp s24 s21,
        loaded,
        written_register stored (get_rd ld)
            (arm_read_byte stored (get_addr_by_offset u stored ld) (u8 u.local)).1 (omega arith)
            other,
        address_kept u p ld a v,
        same,
      )
      (elim (dec_lt a p.mem.size) [
        | yes inside ↦ ground (arith, byte_back p a v (u8 u.local) inside)
        | no outside ↦ ground (arith, byte_lost p a v (u8 u.local) (omega arith))
      ])
