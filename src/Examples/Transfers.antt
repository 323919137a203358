-- ===== src/Examples/Transfers.antt =====
-- The properties of the transfers, the overflow flag and the arithmetic shift at concrete inputs.
use projet_s5_prog.Base.{◌==◌, if◌then◌else◌}
use projet_s5_prog.Base.{ℕ, ◌+◌, ◌*◌, ◌/◌, ◌%◌, ◌^◌, ◌≡◌, ◌≢◌, arith, refl}
use projet_s5_prog.Registers.{read_register}
use projet_s5_prog.Core.{ArmCore, condition_passed, arm_read_register}
use projet_s5_prog.LoadStore.Single.{load_byte, store_byte}
use projet_s5_prog.LoadStore.ByteTrip.{store_byte-load_byte}
use projet_s5_prog.LoadStore.Address.{get_addr_by_offset, addr_imm_offset}
use projet_s5_prog.LoadStore.Single.{load_word, store_word}
use projet_s5_prog.LoadStore.Multiple.{update_rn}
use projet_s5_prog.LoadStore.Count.{ones}
use projet_s5_prog.LoadStore.RoundTrip.{store_word-load_word}
use projet_s5_prog.LoadStore.Loaded.{update_rn_adds}
use projet_s5_prog.Examples.Data.{zeros, machine, machine-IsValid}

-- `STR R1, [R0]` and `LDR R2, [R0]`
str_address : get_addr_by_offset zeros machine 0xE580_1000 ≡ 0
unfolding get_addr_by_offset addr_imm_offset arm_read_register read_register
str_address = refl

ldr_address : get_addr_by_offset zeros machine 0xE590_2000 ≡ 0
unfolding get_addr_by_offset addr_imm_offset arm_read_register read_register
ldr_address = refl

always : (ins : ℕ) → ins / 2 ^ 28 % 16 ≡ 14 → condition_passed machine ins ≢ 0
unfolding condition_passed
always ins e = rw e (omega arith)

store_word-load_word_example :
    arm_read_register (load_word zeros (store_word zeros machine 0xE580_1000).1 0xE590_2000).1 2
    ≡ arm_read_register machine 1
store_word-load_word_example =
    store_word-load_word zeros 0 64 0 machine 0xE580_1000 0xE590_2000 machine-IsValid (omega arith)
      (always 0xE580_1000 refl, refl, refl) (always 0xE590_2000 refl, refl, refl) (omega arith)
      (omega (arith, str_address, ldr_address)) (omega (arith, str_address))

-- the write-back of `LDMDB R1!, {R0, R2}`
update_rn_adds_example :
    arm_read_register (update_rn machine 0xE931_0005) 1
    ≡ (arm_read_register machine 1 + 4 * ones 16 5) % 2 ^ 32
update_rn_adds_example = update_rn_adds machine 0xE931_0005 refl (omega arith)

-- the machine with a negative R2, and the offset `R2, ASR #4`
abbrev negative : ArmCore
negative = record machine { reg = λ k. if k == 2 then 0x8000_0000 else 0 }

negative_rm : arm_read_register negative 2 ≡ 0x8000_0000
unfolding arm_read_register read_register
negative_rm = refl

-- `STRB R1, [R0]` and `LDRB R2, [R0]`
strb_address : get_addr_by_offset zeros machine 0xE5C0_1000 ≡ 0
unfolding get_addr_by_offset addr_imm_offset arm_read_register read_register
strb_address = refl

ldrb_address : get_addr_by_offset zeros machine 0xE5D0_2000 ≡ 0
unfolding get_addr_by_offset addr_imm_offset arm_read_register read_register
ldrb_address = refl

store_byte-load_byte_example :
    arm_read_register (load_byte zeros (store_byte zeros machine 0xE5C0_1000).1 0xE5D0_2000).1 2
    ≡ arm_read_register machine 1 % 2 ^ 8
unfolding arm_read_register get_addr_by_offset read_register addr_imm_offset
store_byte-load_byte_example =
    store_byte-load_byte zeros machine 0xE5C0_1000 0xE5D0_2000 (always 0xE5C0_1000 refl, refl, refl)
      (always 0xE5D0_2000 refl, refl, refl) (omega arith)
      (omega (arith, strb_address, ldrb_address))
