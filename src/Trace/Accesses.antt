-- ===== src/Trace/Accesses.antt =====
-- The accesses of arm_core.c with what they print: the processor beside the state of trace.c.
use projet_s5_prog.Base.{List, [], ◌∷◌, ◌++◌, ℕ, add32, sub32}
use projet_s5_prog.Memory.{memory_read_word}
use projet_s5_prog.Registers.{get_mode}
use projet_s5_prog.Core.{ArmCore, arm_read_register, arm_read_usr_register, arm_read_cpsr}
use projet_s5_prog.Core.{arm_read_spsr, arm_write_register, arm_write_usr_register}
use projet_s5_prog.Core.{arm_write_cpsr, arm_write_spsr, arm_read_byte, arm_read_half}
use projet_s5_prog.Core.{arm_read_word, arm_write_byte, arm_write_half, arm_write_word}
use projet_s5_prog.Trace.Names.{usr}
use projet_s5_prog.Trace.{printed, Tracer, trace_memory, trace_register}

-- the constants of trace.h
abbrev pub cpsr : ℕ
cpsr = 16

abbrev pub spsr : ℕ
spsr = 17

abbrev pub other_access : ℕ
other_access = 0

abbrev pub opcode_fetch : ℕ
opcode_fetch = 1

abbrev pub write : ℕ
write = 0

abbrev pub read : ℕ
read = 1

-- the processor and the tracer that its accesses print with
pub record Traced : Type 0 where
  pub core : ArmCore
  pub tracer : Tracer

-- a text, a line about a register, and a line about the memory
abbrev pub print_text : Traced → List ℕ → Traced
print_text s text = record s {
  tracer = record s.tracer { output = s.tracer.output ++ (printed text ∷ []) };
}

abbrev pub print_register : Traced → ℕ → ℕ → ℕ → ℕ → Traced
print_register s type reg mode value = record s {
  tracer = trace_register s.tracer s.core.cycle_count type reg mode value;
}

abbrev pub print_memory : Traced → ℕ → ℕ → ℕ → ℕ → ℕ → Traced
print_memory s type size cause address value = record s {
  tracer = trace_memory s.tracer s.core.cycle_count type size cause address value;
}

unfoldable pub traced_read_register : Traced → ℕ → ℕ × Traced
traced_read_register s reg =
    let value = arm_read_register s.core reg in
    (value, print_register s read reg (get_mode s.core.reg) value)

unfoldable pub traced_read_usr_register : Traced → ℕ → ℕ × Traced
traced_read_usr_register s reg =
    let value = arm_read_usr_register s.core reg in (value, print_register s read reg usr value)

unfoldable pub traced_read_cpsr : Traced → ℕ × Traced
traced_read_cpsr s = let value = arm_read_cpsr s.core in (value, print_register s read cpsr 0 value)

unfoldable pub traced_read_spsr : Traced → ℕ × Traced
traced_read_spsr s =
    let value = arm_read_spsr s.core in
    (value, print_register s read spsr (get_mode s.core.reg) value)

unfoldable pub traced_write_register : Traced → ℕ → ℕ → Traced
traced_write_register s reg value =
    let s' : Traced = record s { core = arm_write_register s.core reg value } in
    print_register s' write reg (get_mode s'.core.reg) value

unfoldable pub traced_write_usr_register : Traced → ℕ → ℕ → Traced
traced_write_usr_register s reg value =
    print_register (record s { core = arm_write_usr_register s.core reg value }) write reg usr value

unfoldable pub traced_write_cpsr : Traced → ℕ → Traced
traced_write_cpsr s value =
    print_register (record s { core = arm_write_cpsr s.core value }) write cpsr 0 value

unfoldable pub traced_write_spsr : Traced → ℕ → Traced
traced_write_spsr s value =
    let s' : Traced = record s { core = arm_write_spsr s.core value } in
    print_register s' write spsr (get_mode s'.core.reg) value

-- the code, `*value`, and the new state
unfoldable pub traced_fetch : Traced → ℕ × ℕ × Traced
traced_fetch s =
    let core : ArmCore = record s.core { cycle_count = add32 s.core.cycle_count 1 } in
    let (pc, s1) = traced_read_register (record s { core = core }) 15 in
    let address = sub32 pc 4 in
    let (result, value) = memory_read_word s1.core.mem address in
    let s2 = print_memory s1 read 4 opcode_fetch address value in
    (result, value, traced_write_register s2 15 (add32 address 4))

unfoldable pub traced_read_byte : Traced → ℕ → ℕ → ℕ × ℕ × Traced
traced_read_byte s address old =
    let (result, value) = arm_read_byte s.core address old in
    (result, value, print_memory s read 1 other_access address value)

unfoldable pub traced_read_half : Traced → ℕ → ℕ × ℕ × Traced
traced_read_half s address =
    let (result, value) = arm_read_half s.core address in
    (result, value, print_memory s read 2 other_access address value)

unfoldable pub traced_read_word : Traced → ℕ → ℕ × ℕ × Traced
traced_read_word s address =
    let (result, value) = arm_read_word s.core address in
    (result, value, print_memory s read 4 other_access address value)

unfoldable pub traced_write_byte : Traced → ℕ → ℕ → ℕ × Traced
traced_write_byte s address value =
    let (result, core) = arm_write_byte s.core address value in
    (result, print_memory (record s { core = core }) write 1 other_access address value)

unfoldable pub traced_write_half : Traced → ℕ → ℕ → ℕ × Traced
traced_write_half s address value =
    let (result, core) = arm_write_half s.core address value in
    (result, print_memory (record s { core = core }) write 2 other_access address value)

unfoldable pub traced_write_word : Traced → ℕ → ℕ → ℕ × Traced
traced_write_word s address value =
    let (result, core) = arm_write_word s.core address value in
    (result, print_memory (record s { core = core }) write 4 other_access address value)
