-- ===== src/Trace.antt =====
-- The state of trace.c, built without ARM_TRACE_FORMAT. What a call prints is kept as the arguments
-- of its `fprintf`: the names of the registers and modes, which stand in `Names`, are their numbers
-- there. `Accesses` and `State` have the functions of arm_core.c that print.
use projet_s5_prog.Base.{ℕ, ◌+◌, Bool, true, false, ◌&&◌, List, [], ◌∷◌, ◌++◌, Option, none, some}
use projet_s5_prog.Base.{
  ltb, ◌==◌, ◌-◌, ◌^◌, not, truthy, if◌then◌else◌, add32, sub32, bit_and, bit_or,
}
pub mod Stack
pub mod Nesting
pub mod Accesses
pub mod Replay
pub mod Explained
pub mod Told
pub mod Stored
pub mod Runs
pub mod Names
pub mod State
pub mod Shown

-- the flags of trace.h
abbrev pub memory : ℕ
memory = 1

abbrev pub registers : ℕ
registers = 2

abbrev pub state : ℕ
state = 4

abbrev pub position : ℕ
position = 8

-- a line of output: the location, if it is printed, and the numbers; or a text
pub data Printed : Type 0 where
  accessed : Option (List ℕ × ℕ) → ℕ → ℕ → ℕ → ℕ → ℕ → ℕ → ℕ → Printed
  moved : Option (List ℕ × ℕ) → ℕ → ℕ → ℕ → ℕ → ℕ → Printed
  printed : List ℕ → Printed

-- `location_stack_top` is of type `int` and starts at -1.
pub record Tracer : Type 0 where
  pub last_address : ℕ
  pub enabled : Bool
  pub location_file_stack : ℕ → List ℕ
  pub location_line_stack : ℕ → ℕ
  pub location_stack_top : ℕ
  pub trace_flags : ℕ
  pub output : List Printed

-- before `main`
abbrev pub trace_start : Tracer
trace_start = record {
  last_address = 0x1234_5678;
  enabled = true;
  location_file_stack = λ i. [];
  location_line_stack = λ i. 0;
  location_stack_top = 2 ^ 32 - 1;
  trace_flags = 0;
  output = [];
}

abbrev pub set_at {ℓ} : {A : Type ℓ} → (ℕ → A) → ℕ → A → ℕ → A
set_at cells k v i = if i == k then v else cells i

-- none for a write outside of the two arrays of 128 entries
unfoldable pub trace_start_location : Tracer → List ℕ → ℕ → Option Tracer
trace_start_location t file line =
    let top = add32 t.location_stack_top 1 in
    if t.enabled
    then (if ltb top 128
        then some (record t {
          location_stack_top = top;
          location_file_stack = set_at t.location_file_stack top file;
          location_line_stack = set_at t.location_line_stack top line;
        })
        else none)
    else some t

unfoldable pub trace_end_location : Tracer → Tracer
trace_end_location t =
    if t.enabled then record t { location_stack_top = sub32 t.location_stack_top 1 } else t

-- the location that `trace_print_location` prints, if it prints one; `top >= 0` of an `int`
unfoldable pub trace_print_location : Tracer → Option (List ℕ × ℕ)
trace_print_location t =
    if t.enabled && truthy (bit_and t.trace_flags position)
    then (if ltb t.location_stack_top (2 ^ 31)
        then some
            (t.location_file_stack t.location_stack_top, t.location_line_stack t.location_stack_top)
        else none)
    else none

unfoldable pub trace_memory : Tracer → ℕ → ℕ → ℕ → ℕ → ℕ → ℕ → Tracer
trace_memory t cycle type size cause address value =
    let seq = if address == add32 t.last_address 4 then 1 else 0 in
    let line = accessed (trace_print_location t) cycle seq type size cause address value in
    if t.enabled && truthy (bit_and t.trace_flags memory)
    then record t { last_address = address; output = t.output ++ (line ∷ []) }
    else t

unfoldable pub trace_register : Tracer → ℕ → ℕ → ℕ → ℕ → ℕ → Tracer
trace_register t cycle type reg mode value =
    let line = moved (trace_print_location t) cycle type reg mode value in
    if t.enabled && truthy (bit_and t.trace_flags registers)
    then record t { output = t.output ++ (line ∷ []) }
    else t

unfoldable pub trace_disable : Tracer → Tracer
trace_disable t = record t { enabled = false }

unfoldable pub trace_enable : Tracer → Tracer
trace_enable t = record t { enabled = true }

unfoldable pub trace_add : Tracer → ℕ → Tracer
trace_add t flags = record t { trace_flags = bit_or t.trace_flags flags }
