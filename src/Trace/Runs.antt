-- ===== src/Trace/Runs.antt =====
-- Sequences of traced accesses, and what their trace tells.
use projet_s5_prog.Base.{
  ℕ, List, ◌++◌, Option, some, none, ◌≡◌, ◌<◌, refl, subst, ◌∙◌, ltb, if_both, add32,
}
use projet_s5_prog.Trace.{Printed, Tracer, trace_start_location, trace_end_location}
use projet_s5_prog.Trace.Accesses.{Traced, print_text, traced_fetch}
use projet_s5_prog.Trace.Accesses.{traced_read_register, traced_read_usr_register}
use projet_s5_prog.Trace.Accesses.{traced_read_cpsr, traced_read_spsr, traced_write_register}
use projet_s5_prog.Trace.Accesses.{traced_write_usr_register, traced_write_cpsr, traced_write_spsr}
use projet_s5_prog.Trace.Accesses.{traced_read_byte, traced_read_half, traced_read_word}
use projet_s5_prog.Trace.Accesses.{traced_write_byte, traced_write_half, traced_write_word}
use projet_s5_prog.Trace.Replay.{replay}
use projet_s5_prog.Trace.Explained.{
  Tracing, text_Explained, Explained, Explained-trans, silent_Explained,
}
use projet_s5_prog.Trace.Told.{read_register-Explained, read_usr_register-Explained}
use projet_s5_prog.Trace.Told.{read_cpsr-Explained, read_spsr-Explained, write_register-Explained}
use projet_s5_prog.Trace.Told.{
  write_usr_register-Explained, write_cpsr-Explained, write_spsr-Explained,
}
use projet_s5_prog.Trace.Stored.{read_byte-Explained, read_half-Explained, read_word-Explained}
use projet_s5_prog.Trace.Stored.{write_byte-Explained, write_half-Explained, write_word-Explained}
use projet_s5_prog.Trace.Stored.{fetch-Explained}

-- One access to the processor, a text, or a location put on the stack or taken off it. Registers are
-- numbered below 16.
pub data Moves : Traced → Traced → Type 0 where
  fetches : {s : Traced} → Moves s (traced_fetch s).2
  reads_register : {s : Traced} (reg : ℕ) → reg < 16 → Moves s (traced_read_register s reg).1
  reads_usr_register :
      {s : Traced} (reg : ℕ) → reg < 16 → Moves s (traced_read_usr_register s reg).1
  reads_cpsr : {s : Traced} → Moves s (traced_read_cpsr s).1
  reads_spsr : {s : Traced} → Moves s (traced_read_spsr s).1
  writes_register :
      {s : Traced} (reg value : ℕ) → reg < 16 → Moves s (traced_write_register s reg value)
  writes_usr_register :
      {s : Traced} (reg value : ℕ) → reg < 16 → Moves s (traced_write_usr_register s reg value)
  writes_cpsr : {s : Traced} (value : ℕ) → Moves s (traced_write_cpsr s value)
  writes_spsr : {s : Traced} (value : ℕ) → Moves s (traced_write_spsr s value)
  reads_byte : {s : Traced} (address old : ℕ) → Moves s (traced_read_byte s address old).2
  reads_half : {s : Traced} (address : ℕ) → Moves s (traced_read_half s address).2
  reads_word : {s : Traced} (address : ℕ) → Moves s (traced_read_word s address).2
  writes_byte : {s : Traced} (address value : ℕ) → Moves s (traced_write_byte s address value).1
  writes_half : {s : Traced} (address value : ℕ) → Moves s (traced_write_half s address value).1
  writes_word : {s : Traced} (address value : ℕ) → Moves s (traced_write_word s address value).1
  prints : {s : Traced} (text : List ℕ) → Moves s (print_text s text)
  locates :
      {s : Traced} {t : Tracer} (file : List ℕ) (line : ℕ)
      → trace_start_location s.tracer file line ≡ some t
      → Moves s (record s { tracer = t })
  leaves : {s : Traced} → Moves s (record s { tracer = trace_end_location s.tracer })

pub data Runs : Traced → Traced → Type 0 where
  stay : {s : Traced} → Runs s s
  next : {s s' s'' : Traced} → Moves s s' → Runs s' s'' → Runs s s''

-- what a change of the locations leaves of the tracer
abbrev Kept : Tracer → Tracer → Type 0
Kept t t' = (t'.enabled ≡ t.enabled) × (t'.trace_flags ≡ t.trace_flags) × (t'.output ≡ t.output)

abbrev KeptIn : Tracer → Option Tracer → Type 0
KeptIn t none = Unit
KeptIn t (some t') = Kept t t'

start_location-Kept :
    (t : Tracer) (file : List ℕ) (line : ℕ) → KeptIn t (trace_start_location t file line)
unfolding trace_start_location
start_location-Kept t file line =
    if_both (KeptIn t) t.enabled
      (if_both (KeptIn t) (ltb (add32 t.location_stack_top 1) 128) (refl, refl, refl) tt)
      (refl, refl, refl)

end_location-Kept : (t : Tracer) → Kept t (trace_end_location t)
unfolding trace_end_location
end_location-Kept t = if_both (Kept t) t.enabled (refl, refl, refl) (refl, refl, refl)

Kept-Explained :
    (s : Traced) (t : Tracer)
    → Tracing s.tracer
    → Kept s.tracer t
    → Explained s (record s { tracer = t })
Kept-Explained s t on kept = silent_Explained s (record s { tracer = t }) tracing kept.2 refl
  where
    tracing : Tracing t
    tracing = record {
      is_enabled = kept.0 ∙ on.is_enabled;
      memory_on = rw kept.1 on.memory_on;
      registers_on = rw kept.1 on.registers_on;
    }

Moves-Explained : (s s' : Traced) → Tracing s.tracer → Moves s s' → Explained s s'
Moves-Explained s s' on fetches = fetch-Explained s on
Moves-Explained s s' on (reads_register reg h) = read_register-Explained s on reg h
Moves-Explained s s' on (reads_usr_register reg h) = read_usr_register-Explained s on reg h
Moves-Explained s s' on reads_cpsr = read_cpsr-Explained s on
Moves-Explained s s' on reads_spsr = read_spsr-Explained s on
Moves-Explained s s' on (writes_register reg value h) = write_register-Explained s on reg value h
Moves-Explained s s' on (writes_usr_register reg value h) =
    write_usr_register-Explained s on reg value h
Moves-Explained s s' on (writes_cpsr value) = write_cpsr-Explained s on value
Moves-Explained s s' on (writes_spsr value) = write_spsr-Explained s on value
Moves-Explained s s' on (reads_byte address old) = read_byte-Explained s on address old
Moves-Explained s s' on (reads_half address) = read_half-Explained s on address
Moves-Explained s s' on (reads_word address) = read_word-Explained s on address
Moves-Explained s s' on (writes_byte address value) = write_byte-Explained s on address value
Moves-Explained s s' on (writes_half address value) = write_half-Explained s on address value
Moves-Explained s s' on (writes_word address value) = write_word-Explained s on address value
Moves-Explained s s' on (prints text) = text_Explained s on text
Moves-Explained s s' on (locates {t = t} file line e) =
    Kept-Explained s t on (subst (KeptIn s.tracer) e (start_location-Kept s.tracer file line))
Moves-Explained s s' on leaves =
    Kept-Explained s (trace_end_location s.tracer) on (end_location-Kept s.tracer)

Runs-Explained : (s s' : Traced) → Tracing s.tracer → Runs s s' → Explained s s'
Runs-Explained s s' on stay = silent_Explained s s on refl refl
Runs-Explained s s' on (next {s' = middle} move rest) =
    let first = Moves-Explained s middle on move in
    Explained-trans first (Runs-Explained middle s' first.tracing rest)

-- While the tracer prints registers and memory, the lines that a sequence of accesses adds to the
-- output tell all that it does: replaying them from the registers and the memory before it gives
-- those after it, and every line of a reading shows the value that stands there at that point.
pub replay-Runs :
    (s s' : Traced)
    → Tracing s.tracer
    → Runs s s'
    → (lines : List Printed) × (s'.tracer.output ≡ s.tracer.output ++ lines)
      × (replay lines (some (s.core.reg, s.core.mem)) ≡ some (s'.core.reg, s'.core.mem))
replay-Runs s s' on run =
    let told = Runs-Explained s s' on run in (told.lines, told.appended, told.replayed)
