-- ===== src/Core.antt =====
-- arm_core.c: the processor state, register and memory accesses, the fetch, and the two helpers
-- of the decoders, `conditionPassed` and `rotateRight`.
-- The calls of trace.c only print: `Trace.Accesses` adds them.
pub mod Conditions
pub mod Rotate
pub mod Written
pub mod Ones
use projet_s5_prog.Base.{ℕ, bit_and, bit_or, not, ◌&&◌, ◌||◌}
use projet_s5_prog.Base.{◌==◌, if◌then◌else◌, int_of, add32, sub32}
use projet_s5_prog.Util.{get_bit, get_bits, Undefined, shl, shr}
use projet_s5_prog.Memory.{Memory, memory_read_byte, memory_read_half, memory_read_word}
use projet_s5_prog.Memory.{memory_write_byte, memory_write_half, memory_write_word}
use projet_s5_prog.Registers.{Registers, current_mode_has_spsr, in_a_privileged_mode}
use projet_s5_prog.Registers.{read_register, read_usr_register, read_cpsr, read_spsr}
use projet_s5_prog.Registers.{write_register, write_usr_register, write_cpsr, write_spsr}

-- `struct arm_core_data`
pub record ArmCore : Type 0 where
  pub cycle_count : ℕ
  pub reg : Registers
  pub mem : Memory

unfoldable pub arm_current_mode_has_spsr : ArmCore → ℕ
arm_current_mode_has_spsr p = current_mode_has_spsr p.reg

unfoldable pub arm_in_a_privileged_mode : ArmCore → ℕ
arm_in_a_privileged_mode p = in_a_privileged_mode p.reg

unfoldable pub arm_get_cycle_count : ArmCore → ℕ
arm_get_cycle_count p = p.cycle_count

-- what a reading of the program counter makes of the stored value
abbrev pub seen_pc : ℕ → ℕ
seen_pc value = bit_and (add32 value 4) 0xFFFF_FFFD

unfoldable pub arm_read_register : ArmCore → ℕ → ℕ
arm_read_register p reg =
    let value = read_register p.reg reg in if reg == 15 then seen_pc value else value

unfoldable pub arm_read_usr_register : ArmCore → ℕ → ℕ
arm_read_usr_register p reg =
    let value = read_usr_register p.reg reg in if reg == 15 then seen_pc value else value

unfoldable pub arm_read_cpsr : ArmCore → ℕ
arm_read_cpsr p = read_cpsr p.reg

unfoldable pub arm_read_spsr : ArmCore → ℕ
arm_read_spsr p = read_spsr p.reg

unfoldable pub arm_write_register : ArmCore → ℕ → ℕ → ArmCore
arm_write_register p reg value = record p { reg = write_register p.reg reg value }

unfoldable pub arm_write_usr_register : ArmCore → ℕ → ℕ → ArmCore
arm_write_usr_register p reg value = record p { reg = write_usr_register p.reg reg value }

unfoldable pub arm_write_cpsr : ArmCore → ℕ → ArmCore
arm_write_cpsr p value = record p { reg = write_cpsr p.reg value }

unfoldable pub arm_write_spsr : ArmCore → ℕ → ArmCore
arm_write_spsr p value = record p { reg = write_spsr p.reg value }

-- A reading returns its code and the new `*value`.
unfoldable pub arm_read_byte : ArmCore → ℕ → ℕ → ℕ × ℕ
arm_read_byte p address value = memory_read_byte p.mem address value

unfoldable pub arm_read_half : ArmCore → ℕ → ℕ × ℕ
arm_read_half p address = memory_read_half p.mem address

unfoldable pub arm_read_word : ArmCore → ℕ → ℕ × ℕ
arm_read_word p address = memory_read_word p.mem address

-- A write returns its code and the new core.
unfoldable pub arm_write_byte : ArmCore → ℕ → ℕ → ℕ × ArmCore
arm_write_byte p address value =
    let (result, mem) = memory_write_byte p.mem address value in (result, record p { mem = mem })

unfoldable pub arm_write_half : ArmCore → ℕ → ℕ → ℕ × ArmCore
arm_write_half p address value =
    let (result, mem) = memory_write_half p.mem address value in (result, record p { mem = mem })

unfoldable pub arm_write_word : ArmCore → ℕ → ℕ → ℕ × ArmCore
arm_write_word p address value =
    let (result, mem) = memory_write_word p.mem address value in (result, record p { mem = mem })

-- what `arm_fetch` returns, what it writes to `*value`, and the new core
pub record Fetched : Type 0 where
  pub result : ℕ
  pub value : ℕ
  pub core : ArmCore

unfoldable pub arm_fetch : ArmCore → Fetched
arm_fetch p =
    let p' : ArmCore = record p { cycle_count = add32 p.cycle_count 1 } in
    let address = sub32 (arm_read_register p' 15) 4 in
    let read = memory_read_word p'.mem address in
    record { result = read.0; value = read.1; core = arm_write_register p' 15 (add32 address 4) }

-- `conditionPassed`: 0, 1, or 15 for the condition field 15.
unfoldable pub condition_passed : ArmCore → ℕ → ℕ
condition_passed p ins =
    let cpsr = arm_read_cpsr p in
    let n = get_bit cpsr 31 in
    let z = get_bit cpsr 30 in
    let c = get_bit cpsr 29 in
    let v = get_bit cpsr 28 in
    let cond = get_bits ins 31 28 in
    if cond == 0
    then int_of (z == 1)
    else if cond == 1
    then int_of (z == 0)
    else if cond == 2
    then int_of (c == 1)
    else if cond == 3
    then int_of (c == 0)
    else if cond == 4
    then int_of (n == 1)
    else if cond == 5
    then int_of (n == 0)
    else if cond == 6
    then int_of (v == 1)
    else if cond == 7
    then int_of (v == 0)
    else if cond == 8
    then int_of ((c == 1) && (z == 0))
    else if cond == 9
    then int_of ((c == 0) || (z == 1))
    else if cond == 10
    then int_of (n == v)
    else if cond == 11
    then int_of (not (n == v))
    else if cond == 12
    then int_of ((z == 0) && (n == v))
    else if cond == 13
    then int_of ((z == 1) || not (n == v))
    else if cond == 15
    then 15
    else 1

-- `rotateRight`
unfoldable pub rotate_right : Undefined → ℕ → ℕ → ℕ
rotate_right u x n =
    let shifted = shr u x n in let rot_bits = shl u x (sub32 32 n) in bit_or shifted rot_bits
