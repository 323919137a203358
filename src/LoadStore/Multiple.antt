-- ===== src/LoadStore/Multiple.antt =====
-- The block transfers of arm_load_store.c, with addressing mode 4, and their dispatch.
use projet_s5_prog.Base.{ℕ, zero, suc, ◌+◌, ◌-◌, ◌*◌, ◌%◌, ◌^◌, bit_and}
use projet_s5_prog.Base.{not, ◌&&◌}
use projet_s5_prog.Base.{◌==◌, if◌then◌else◌, truthy, u32, add32, sub32}
use projet_s5_prog.Util.{get_bit, get_bits}
use projet_s5_prog.Core.{ArmCore, condition_passed, arm_read_register, arm_read_usr_register}
use projet_s5_prog.Core.{arm_write_register, arm_write_usr_register, arm_read_word, arm_write_word}
use projet_s5_prog.Core.{arm_current_mode_has_spsr, arm_read_spsr, arm_write_cpsr}
use projet_s5_prog.Exception.{undefined_instruction}
use projet_s5_prog.LoadStore.Address.{get_rn}
use projet_s5_prog.LoadStore.Single.{load_to_pc}

-- `while (number) { number &= (number - 1); count++; }` on fuel; the number has 16 bits, each
-- round clears one, and so 17 rounds end the loop.
unfoldable pub count_set : ℕ → ℕ → ℕ → ℕ
count_set zero number count = count
count_set (suc fuel) number count =
    let rest = count_set fuel (bit_and number (number - 1)) (count + 1) in
    if number == 0 then count else rest

unfoldable pub nb_set_bits : ℕ → ℕ
nb_set_bits ins = count_set 17 (ins % 2 ^ 16) 0

unfoldable pub get_start_address : ArmCore → ℕ → ℕ
get_start_address p ins =
    let idab = get_bits ins 24 23 in
    let rn = arm_read_register p (get_rn ins) in
    if idab == 1
    then rn
    else if idab == 3
    then add32 rn 4
    else if idab == 0
    then add32 (sub32 rn (u32 (4 * nb_set_bits ins))) 4
    else sub32 rn (u32 (4 * nb_set_bits ins))

unfoldable pub get_end_address : ArmCore → ℕ → ℕ
get_end_address p ins =
    let idab = get_bits ins 24 23 in
    let rn = arm_read_register p (get_rn ins) in
    if idab == 1
    then sub32 (add32 rn (u32 (4 * nb_set_bits ins))) 4
    else if idab == 3
    then add32 rn (u32 (4 * nb_set_bits ins))
    else if idab == 0
    then rn
    else sub32 rn 4

unfoldable pub update_rn : ArmCore → ℕ → ArmCore
update_rn p ins =
    if get_bit ins 21 == 1
    then (let rn_data = arm_read_register p (get_bits ins 19 16) in
        arm_write_register p (get_bits ins 19 16) (add32 rn_data (u32 (nb_set_bits ins * 4))))
    else p

-- `for (i = ...; i < 15; i++)` with `left` rounds to go: the address behind the last word read, and
-- the core. `write` is `arm_write_register`, or `arm_write_usr_register` in LDM (2).
unfoldable pub ldm_loop : (ArmCore → ℕ → ℕ → ArmCore) → ℕ → ℕ → ℕ → ℕ → ArmCore → ℕ × ArmCore
ldm_loop write ins zero i curr_addr p = (curr_addr, p)
ldm_loop write ins (suc left) i curr_addr p =
    let listed = get_bit ins i == 1 in
    ldm_loop write ins left (i + 1) (if listed then add32 curr_addr 4 else curr_addr)
      (if listed then write p i (arm_read_word p curr_addr).1 else p)

-- `if(currAddr - 4 != getEndAddress(p, ins)) return 1; updateRn(p, ins);`
unfoldable pub finish : ℕ → ArmCore → ℕ → ℕ × ArmCore
finish curr_addr p ins =
    if not (sub32 curr_addr 4 == get_end_address p ins) then (1, p) else (0, update_rn p ins)

-- LDM (1)
unfoldable pub ldm1 : ArmCore → ℕ → ℕ × ArmCore
ldm1 p ins =
    if truthy (condition_passed p ins)
    then (let (curr_addr, p1) = ldm_loop arm_write_register ins 15 0 (get_start_address p ins) p in
        if get_bit ins 15 == 1
        then finish (add32 curr_addr 4) (load_to_pc p1 (arm_read_word p1 curr_addr).1) ins
        else finish curr_addr p1 ins)
    else (0, p)

-- LDM (2)
unfoldable pub ldm2 : ArmCore → ℕ → ℕ × ArmCore
ldm2 p ins =
    if truthy (condition_passed p ins)
    then (let (curr_addr, p1) =
          ldm_loop arm_write_usr_register ins 15 0 (get_start_address p ins) p in
        finish curr_addr p1 ins)
    else (0, p)

-- LDM (3)
unfoldable pub ldm3 : ArmCore → ℕ → ℕ × ArmCore
ldm3 p ins =
    if truthy (condition_passed p ins)
    then (let (curr_addr, p1) = ldm_loop arm_write_register ins 15 0 (get_start_address p ins) p in
        let p2 =
          if truthy (arm_current_mode_has_spsr p1)
          then arm_write_cpsr p1 (arm_read_spsr p1)
          else p1 in
        finish (add32 curr_addr 4) (arm_write_register p2 15 (arm_read_word p2 curr_addr).1) ins)
    else (0, p)

-- `for (i = ...; i < 16; i++)` with `left` rounds to go; the register list is not consulted.
unfoldable pub stm_loop : (ArmCore → ℕ → ℕ) → ℕ → ℕ → ℕ → ArmCore → ℕ × ArmCore
stm_loop read zero i curr_addr p = (curr_addr, p)
stm_loop read (suc left) i curr_addr p =
    stm_loop read left (i + 1) (add32 curr_addr 4) (arm_write_word p curr_addr (read p i)).1

-- STM (1)
unfoldable pub stm1 : ArmCore → ℕ → ℕ × ArmCore
stm1 p ins =
    if truthy (condition_passed p ins)
    then (let (curr_addr, p1) = stm_loop arm_read_register 16 0 (get_start_address p ins) p in
        finish curr_addr p1 ins)
    else (0, p)

-- STM (2)
unfoldable pub stm2 : ArmCore → ℕ → ℕ × ArmCore
stm2 p ins =
    if truthy (condition_passed p ins)
    then (let (curr_addr, p1) = stm_loop arm_read_usr_register 16 0 (get_start_address p ins) p in
        finish curr_addr p1 ins)
    else (0, p)

-- It drops what the transfers return.
unfoldable pub arm_load_store_multiple : ArmCore → ℕ → ℕ × ArmCore
arm_load_store_multiple p ins =
    let bit22 = get_bit ins 22 in
    let bit21 = get_bit ins 21 in
    let bit20 = get_bit ins 20 in
    let bit15 = get_bit ins 15 in
    if (bit22 == 0) && (bit20 == 1)
    then (0, (ldm1 p ins).1)
    else if (bit22 == 1) && (bit20 == 1) && (bit15 == 0)
    then (0, (ldm2 p ins).1)
    else if (bit22 == 1) && (bit20 == 1) && (bit15 == 1)
    then (0, (ldm3 p ins).1)
    else if (bit22 == 0) && (bit20 == 0)
    then (0, (stm1 p ins).1)
    else if (bit22 == 1) && (bit21 == 0) && (bit20 == 0)
    then (0, (stm2 p ins).1)
    else (undefined_instruction, p)

unfoldable pub arm_coprocessor_load_store : ArmCore → ℕ → ℕ × ArmCore
arm_coprocessor_load_store p ins = (undefined_instruction, p)
