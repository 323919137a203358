-- ===== src/Examples/Printing.antt =====
-- Traced accesses and printed states on a concrete machine, and the tests of memory_test.c.
use projet_s5_prog.Base.{ℕ, ◌≡◌, refl, false, List, [], ◌∷◌, ◌++◌, some, arith, ◌==◌, if◌then◌else◌}
use projet_s5_prog.Registers.{get_mode, read_register, read_usr_register, read_cpsr}
use projet_s5_prog.Core.{ArmCore, arm_read_register, arm_read_usr_register, arm_read_cpsr}
use projet_s5_prog.Trace.{Printed, Tracer, trace_start}
use projet_s5_prog.Trace.Accesses.{Traced, traced_fetch, traced_write_cpsr, traced_write_register}
use projet_s5_prog.Trace.Replay.{replay}
use projet_s5_prog.Trace.Explained.{Tracing}
use projet_s5_prog.Trace.Runs.{stay, next, fetches, writes_cpsr, writes_register, replay-Runs}
use projet_s5_prog.Trace.State.{trace_arm_state}
use projet_s5_prog.Trace.Shown.{Alike, trace_arm_state_shows}
use projet_s5_prog.MemoryTest.{test_main}
use projet_s5_prog.MemoryTest.Passed.{test_main_passes}
use projet_s5_prog.Examples.Data.{machine, small_registers}

-- every line is printed
abbrev tracer : Tracer
tracer = record trace_start { trace_flags = 7 }

abbrev traced : Traced
traced = record { core = machine; tracer = tracer }

traced-Tracing : Tracing tracer
traced-Tracing = record { is_enabled = refl; memory_on = refl; registers_on = refl }

-- a fetch, a change to the fast interrupt mode, and a write to its R8
abbrev after : Traced
after = traced_write_register (traced_write_cpsr (traced_fetch traced).2 0x1d1) 8 7

replay-Runs_example :
    (lines : List Printed) × (after.tracer.output ≡ [] ++ lines)
    × (replay lines (some (machine.reg, machine.mem)) ≡ some (after.core.reg, after.core.mem))
replay-Runs_example =
    replay-Runs traced after traced-Tracing
      (next fetches (next (writes_cpsr 0x1d1) (next (writes_register 8 7 (omega arith)) stay)))

-- the same machine with another R8 of the fast interrupt mode
abbrev other_bank : ArmCore
other_bank = record machine { reg = λ k. if k == 9 then 77 else small_registers k }

same_banked : (reg : ℕ) → arm_read_register machine reg ≡ arm_read_register other_bank reg
unfolding arm_read_register read_register get_mode
same_banked reg = ground arith

same_usr : (reg : ℕ) → arm_read_usr_register machine reg ≡ arm_read_usr_register other_bank reg
unfolding arm_read_usr_register read_usr_register
same_usr reg = ground arith

other_bank-Alike : Alike machine other_bank
unfolding get_mode arm_read_cpsr read_cpsr
other_bank-Alike = record {
  same_cycles = refl;
  same_mode = refl;
  same_registers = same_banked;
  same_usr_registers = same_usr;
  same_cpsr = refl;
}

abbrev other_traced : Traced
other_traced = record { core = other_bank; tracer = tracer }

trace_arm_state_shows_example :
    ((trace_arm_state traced).tracer ≡ (trace_arm_state other_traced).tracer)
    × ((trace_arm_state traced).core ≡ machine)
    × ((trace_arm_state other_traced).core ≡ other_bank)
trace_arm_state_shows_example = trace_arm_state_shows traced other_traced other_bank-Alike refl

test_main_passes_example :
    test_main false 5 (λ i a. a) 0x0A0B_0C0D 0x0E0F ≡ 1 ∷ 1 ∷ 1 ∷ 1 ∷ 1 ∷ 1 ∷ 1 ∷ 1 ∷ []
test_main_passes_example = test_main_passes false 5 (λ i a. a) 0x0A0B_0C0D 0x0E0F
