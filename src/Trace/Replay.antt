-- ===== src/Trace/Replay.antt =====
-- The reading of a trace: what its lines make of the registers and of the memory.
use projet_s5_prog.Base.{ℕ, List, [], ◌∷◌, ◌++◌, Option, none, some, ◌≡◌, refl}
use projet_s5_prog.Base.{◌==◌, if◌then◌else◌}
use projet_s5_prog.Memory.{Memory, memory_read_byte, memory_read_half, memory_read_word}
use projet_s5_prog.Memory.{memory_write_byte, memory_write_half, memory_write_word}
use projet_s5_prog.Registers.{Registers, store_word}
use projet_s5_prog.Registers.Slot.{slot}
use projet_s5_prog.Core.{seen_pc}
use projet_s5_prog.Trace.{Printed, accessed, moved, printed}
use projet_s5_prog.Trace.Accesses.{cpsr, spsr, write}

-- the word of the SPSR of a mode; 37 for a mode without one
abbrev pub spsr_slot : ℕ → ℕ
spsr_slot mode =
    if mode == 17
    then 36
    else if mode == 18
    then 35
    else if mode == 19
    then 32
    else if mode == 23
    then 33
    else if mode == 27
    then 34
    else 37

-- what a line says was written to a register, and what it must show of one
abbrev pub replay_write : Registers → ℕ → ℕ → ℕ → Registers
replay_write r mode reg value =
    if reg == cpsr
    then store_word r 31 value
    else if reg == spsr
    then (if spsr_slot mode == 37 then r else store_word r (spsr_slot mode) value)
    else store_word r (slot mode reg) value

abbrev pub shown : Registers → ℕ → ℕ → ℕ
shown r mode reg =
    if reg == cpsr
    then r 31
    else if reg == spsr
    then (if spsr_slot mode == 37 then 0xFFFF_FFFF else r (spsr_slot mode))
    else if reg == 15
    then seen_pc (r 30)
    else r (slot mode reg)

abbrev pub replay_store : Memory → ℕ → ℕ → ℕ → Memory
replay_store m size address value =
    if size == 1
    then (memory_write_byte m address value).1
    else if size == 2
    then (memory_write_half m address value).1
    else (memory_write_word m address value).1

-- A byte outside of the memory shows the value that was there before.
abbrev pub shown_memory : Memory → ℕ → ℕ → ℕ → ℕ
shown_memory m size address value =
    if size == 1
    then (memory_read_byte m address value).1
    else if size == 2
    then (memory_read_half m address).1
    else (memory_read_word m address).1

-- none for a line that shows another value than the one that stands there
abbrev pub replay_line : Printed → Registers × Memory → Option (Registers × Memory)
replay_line (moved location cycle type reg mode value) (r, m) =
    if type == write
    then some (replay_write r mode reg value, m)
    else if value == shown r mode reg
    then some (r, m)
    else none
replay_line (accessed location cycle seq type size cause address value) (r, m) =
    if type == write
    then some (r, replay_store m size address value)
    else if value == shown_memory m size address value
    then some (r, m)
    else none
replay_line (printed text) s = some s

abbrev pub replay_next : Printed → Option (Registers × Memory) → Option (Registers × Memory)
replay_next line none = none
replay_next line (some s) = replay_line line s

abbrev pub replay : List Printed → Option (Registers × Memory) → Option (Registers × Memory)
replay [] o = o
replay (line ∷ lines) o = replay lines (replay_next line o)

pub replay-append :
    (a b : List Printed) (o : Option (Registers × Memory))
    → replay (a ++ b) o ≡ replay b (replay a o)
replay-append [] b o = refl
replay-append (line ∷ a) b o = replay-append a b (replay_next line o)
