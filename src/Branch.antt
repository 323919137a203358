-- ===== src/Branch.antt =====
-- arm_branch_other.c: branches, the software interrupt, and MRS.
pub mod Targets
use projet_s5_prog.Base.{ℕ, ◌*◌, ◌%◌, ◌^◌, bit_and, bit_or}
use projet_s5_prog.Base.{Bool, ◌&&◌}
use projet_s5_prog.Base.{◌==◌, if◌then◌else◌, truthy, add32, sub32, shl32}
use projet_s5_prog.Util.{get_bit, get_bits}
use projet_s5_prog.Core.{ArmCore, condition_passed, arm_read_register, arm_write_register}
use projet_s5_prog.Core.{arm_read_cpsr, arm_read_spsr, arm_write_cpsr}
use projet_s5_prog.Exception.{undefined_instruction, software_interrupt}

abbrev pub get_bit_24 : ℕ → ℕ
get_bit_24 ins = get_bit ins 24

-- `calcBLTargetAddress`; `<<` binds tighter than `|`.
unfoldable pub calc_bl_target_address : ℕ → Bool → ℕ
calc_bl_target_address ins mode =
    let res = get_bits ins 23 0 in
    if get_bit res 23 == 1
    then (if mode
        then shl32 (bit_or (bit_or res 0xFF00_0000) (get_bit_24 ins * 2)) 2
        else shl32 (bit_or res 0xFF00_0000) 2)
    else shl32 res 2

-- the first `if` of `blx1_procedure`: the program counter in the local `pc`, and the core
unfoldable pub branch_first : ArmCore → ℕ → ℕ → ℕ × ArmCore
branch_first p ins pc =
    if truthy (condition_passed p ins)
    then (let p1 = if truthy (get_bit_24 ins) then arm_write_register p 14 (sub32 pc 4) else p in
        let pc1 = add32 pc (calc_bl_target_address ins (condition_passed p1 ins == 15)) in
        (pc1, arm_write_register p1 15 pc1))
    else (pc, p)

-- the second
unfoldable pub branch_exchange : ArmCore → ℕ → ℕ → ArmCore
branch_exchange p ins pc =
    if condition_passed p ins == 15
    then (let p1 = arm_write_register p 14 (sub32 pc 4) in
        let cpsr = bit_or (bit_and (arm_read_cpsr p1) 0xFFFF_FFDF) 0x20 in
        let p2 = arm_write_cpsr p1 cpsr in
        let pc1 = add32 pc (calc_bl_target_address ins (condition_passed p2 ins == 15)) in
        arm_write_register p2 15 pc1)
    else p

unfoldable pub blx1_procedure : ArmCore → ℕ → ℕ × ArmCore
blx1_procedure p ins =
    let (pc, p1) = branch_first p ins (arm_read_register p 15) in (0, branch_exchange p1 ins pc)

unfoldable pub blx2_procedure : ArmCore → ℕ → ℕ × ArmCore
blx2_procedure p ins =
    if truthy (condition_passed p ins)
    then (let rm_data = arm_read_register p (get_bits ins 3 0) in
        let pc = arm_read_register p 15 in
        let p1 = if get_bit ins 5 == 1 then arm_write_register p 14 pc else p in
        let cpsr = bit_or (bit_and (arm_read_cpsr p1) 0xFFFF_FFDF) (get_bit rm_data 0 * 2 ^ 5) in
        let p2 = arm_write_cpsr p1 cpsr in
        (0, arm_write_register p2 15 (bit_and rm_data 0xFFFF_FFFE)))
    else (0, p)

unfoldable pub arm_branch : ArmCore → ℕ → ℕ × ArmCore
arm_branch p ins =
    if get_bits ins 27 25 == 5 then (0, (blx1_procedure p ins).1) else (undefined_instruction, p)

unfoldable pub arm_branch_misc : ArmCore → ℕ → ℕ × ArmCore
arm_branch_misc p ins =
    if get_bits ins 27 20 == 0x12 then (0, (blx2_procedure p ins).1) else (undefined_instruction, p)

-- `exit(0)` ends the simulator; any other way leaves a return code and a core.
pub data Outcome : Type 0 where
  ran : ℕ → ArmCore → Outcome
  exited : ℕ → Outcome

unfoldable pub arm_coprocessor_others_swi : ArmCore → ℕ → Outcome
arm_coprocessor_others_swi p ins =
    if truthy (get_bit ins 24)
    then (if ins % 2 ^ 24 == 0x12_3456 then exited 0 else ran software_interrupt p)
    else ran undefined_instruction p

unfoldable pub mrs_procedure : ArmCore → ℕ → ℕ × ArmCore
mrs_procedure p ins =
    if truthy (condition_passed p ins)
    then (let val = if get_bit ins 22 == 1 then arm_read_spsr p else arm_read_cpsr p in
        (0, arm_write_register p (get_bits ins 15 12) val))
    else (0, p)

unfoldable pub arm_miscellaneous : ArmCore → ℕ → ℕ × ArmCore
arm_miscellaneous p ins =
    if (get_bits ins 27 23 == 2) && (get_bits ins 21 20 == 0)
    then (0, (mrs_procedure p ins).1)
    else (0, p)
