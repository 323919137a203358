-- ===== src/Trace/Explained.antt =====
-- The trace of arm_core.c's accesses explains what they do to the registers and the memory.
use projet_s5_prog.Base.{ℕ, List, [], ◌∷◌, ◌++◌, none, some, ◌≡◌, refl, sym, ap, ◌∙◌, true}
use projet_s5_prog.Base.{◌==◌, if◌then◌else◌, truthy, bit_and, add32}
use mathlib.Core.List.{append_assoc}
use projet_s5_prog.Memory.{Memory}
use projet_s5_prog.Registers.{Registers}
use projet_s5_prog.Core.{ArmCore}
use projet_s5_prog.Trace.{
  Printed, accessed, moved, printed, Tracer, memory, registers, trace_print_location,
}
use projet_s5_prog.Trace.{trace_memory, trace_register}
use projet_s5_prog.Trace.Accesses.{Traced, print_text, print_register, print_memory}
use projet_s5_prog.Trace.Replay.{replay, replay_line, replay-append}

-- the tracer prints the accesses to the registers and to the memory
pub record Tracing (t : Tracer) : Type 0 where
  pub is_enabled : t.enabled ≡ true
  pub memory_on : truthy (bit_and t.trace_flags memory) ≡ true
  pub registers_on : truthy (bit_and t.trace_flags registers) ≡ true

abbrev pub state_of : Traced → Registers × Memory
state_of s = (s.core.reg, s.core.mem)

pub record Explained (s s' : Traced) : Type 0 where
  pub tracing : Tracing s'.tracer
  pub lines : List Printed
  pub appended : s'.tracer.output ≡ s.tracer.output ++ lines
  pub replayed : replay lines (some (state_of s)) ≡ some (state_of s')

append-empty : (a : List Printed) → a ≡ a ++ []
append-empty [] = refl
append-empty (x ∷ a) = ap (λ (t : List Printed). x ∷ t) (append-empty a)

pub Explained-trans : {s s' s'' : Traced} → Explained s s' → Explained s' s'' → Explained s s''
Explained-trans {s} {s'} {s''} a b = record {
  tracing = b.tracing;
  lines = a.lines ++ b.lines;
  appended =
      b.appended
      ∙ ap (λ (t : List Printed). t ++ b.lines) a.appended
      ∙ append_assoc s.tracer.output a.lines b.lines;
  replayed =
      replay-append a.lines b.lines (some (state_of s))
      ∙ ap (replay b.lines) a.replayed
      ∙ b.replayed;
}

-- a step that prints nothing and leaves the registers and the memory
pub silent_Explained :
    (s s' : Traced)
    → Tracing s'.tracer
    → s'.tracer.output ≡ s.tracer.output
    → state_of s' ≡ state_of s
    → Explained s s'
silent_Explained s s' tracing same_output same_state = record {
  tracing = tracing;
  lines = [];
  appended = same_output ∙ append-empty s.tracer.output;
  replayed = ap some (sym same_state);
}

module _ (t : Tracer) (on : Tracing t) where
  printed_register :
      (cycle type reg mode value : ℕ)
      → trace_register t cycle type reg mode value ≡ record t {
        output = t.output ++ (moved (trace_print_location t) cycle type reg mode value ∷ []);
      }
  unfolding trace_register
  printed_register cycle type reg mode value = rw (on.is_enabled, on.registers_on) refl

  register_Tracing :
      (cycle type reg mode value : ℕ) → Tracing (trace_register t cycle type reg mode value)
  register_Tracing cycle type reg mode value =
      rw (printed_register cycle type reg mode value) record {
        is_enabled = on.is_enabled;
        memory_on = on.memory_on;
        registers_on = on.registers_on;
      }

  printed_memory :
      (cycle type size cause address value : ℕ)
      → trace_memory t cycle type size cause address value ≡ record t {
        last_address = address;
        output =
            t.output
            ++ (accessed
                  (trace_print_location t)
                  cycle
                  (if address == add32 t.last_address 4 then 1 else 0)
                  type
                  size
                  cause
                  address
                  value
                ∷ []);
      }
  unfolding trace_memory
  printed_memory cycle type size cause address value = rw (on.is_enabled, on.memory_on) refl

  memory_Tracing :
      (cycle type size cause address value : ℕ)
      → Tracing (trace_memory t cycle type size cause address value)
  memory_Tracing cycle type size cause address value =
      rw (printed_memory cycle type size cause address value) record {
        is_enabled = on.is_enabled;
        memory_on = on.memory_on;
        registers_on = on.registers_on;
      }

-- a line about a register that tells the step from one processor to the next
module _ (s : Traced) (on : Tracing s.tracer) where
  pub register_Explained :
      (core : ArmCore) (type reg mode value : ℕ)
      → replay_line (moved none core.cycle_count type reg mode value) (state_of s)
        ≡ some (core.reg, core.mem)
      → Explained s (print_register (record s { core = core }) type reg mode value)
  register_Explained core type reg mode value told = record {
    tracing = register_Tracing s.tracer on core.cycle_count type reg mode value;
    lines = moved (trace_print_location s.tracer) core.cycle_count type reg mode value ∷ [];
    appended =
        ap (λ (t : Tracer). t.output)
          (printed_register s.tracer on core.cycle_count type reg mode value);
    replayed = told;
  }

  pub memory_Explained :
      (core : ArmCore) (type size cause address value : ℕ)
      → replay_line (accessed none core.cycle_count 0 type size cause address value) (state_of s)
        ≡ some (core.reg, core.mem)
      → Explained s (print_memory (record s { core = core }) type size cause address value)
  memory_Explained core type size cause address value told = record {
    tracing = memory_Tracing s.tracer on core.cycle_count type size cause address value;
    lines =
        accessed (trace_print_location s.tracer) core.cycle_count
          (if address == add32 s.tracer.last_address 4 then 1 else 0) type size cause address value
        ∷ [];
    appended =
        ap (λ (t : Tracer). t.output)
          (printed_memory s.tracer on core.cycle_count type size cause address value);
    replayed = told;
  }

  pub text_Explained : (text : List ℕ) → Explained s (print_text s text)
  text_Explained text = record {
    tracing = record {
      is_enabled = on.is_enabled;
      memory_on = on.memory_on;
      registers_on = on.registers_on;
    };
    lines = printed text ∷ [];
    appended = refl;
    replayed = refl;
  }
