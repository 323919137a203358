-- ===== src/Trace/Nesting.antt =====
-- The locations of nested traced calls.
use projet_s5_prog.Base.{ℕ, ◌-◌, ◌^◌, ◌<◌, ◌≡◌, refl, arith, List, some}
use projet_s5_prog.Base.{◌⊎◌, inl, inr}
use projet_s5_prog.Trace.{
  Tracer, trace_start_location, trace_end_location, trace_memory, trace_register,
  trace_print_location,
}
use projet_s5_prog.Trace.Stack.{
  Same, Same-refl, Same-trans, memory_Same, register_Same, inside_small, call_Same,
}

-- what the traced calls of one function do, by trace_location.h: each puts its location on the stack,
-- does what it does, further traced calls included, and takes its location off again.
pub data Calls : Tracer → Tracer → Type 0 where
  return : {t : Tracer} → Calls t t
  call :
      {t inside after end : Tracer} (file : List ℕ) (line : ℕ)
      → trace_start_location t file line ≡ some inside
      → Calls inside after
      → Calls (trace_end_location after) end
      → Calls t end
  access :
      {t end : Tracer} (cycle type size cause address value : ℕ)
      → Calls (trace_memory t cycle type size cause address value) end
      → Calls t end
  move :
      {t end : Tracer} (cycle type reg mode value : ℕ)
      → Calls (trace_register t cycle type reg mode value) end
      → Calls t end

Calls-Same : (t end : Tracer) → t.location_stack_top < 2 ^ 32 → Calls t end → Same t end
Calls-Same t end h return = Same-refl t
Calls-Same t end h (call {inside = inside} {after = after} file line e within rest) =
    let first : Same t (trace_end_location after) =
      call_Same t inside file line h e after
        (Calls-Same inside after (inside_small t inside file line h e) within) in
    Same-trans first (Calls-Same _ end (omega (arith, first.same_top)) rest)
Calls-Same t end h (access cycle type size cause address value rest) =
    let first : Same t (trace_memory t cycle type size cause address value) =
      memory_Same t cycle type size cause address value in
    Same-trans first (Calls-Same _ end (omega (arith, first.same_top)) rest)
Calls-Same t end h (move cycle type reg mode value rest) =
    let first : Same t (trace_register t cycle type reg mode value) =
      register_Same t cycle type reg mode value in
    Same-trans first (Calls-Same _ end (omega (arith, first.same_top)) rest)

top_file :
    (t end : Tracer)
    → t.location_stack_top < 128
    → Same t end
    → trace_print_location end ≡ trace_print_location t
unfolding trace_print_location
top_file t end small same =
    rw
      (
        same.same_enabled,
        same.same_flags,
        same.same_top,
        same.same_file t.location_stack_top (omega arith) small,
        same.same_line t.location_stack_top (omega arith) small,
        trace_print_location,
      )
      refl

no_top :
    (t end : Tracer)
    → t.location_stack_top ≡ 2 ^ 32 - 1
    → Same t end
    → trace_print_location end ≡ trace_print_location t
unfolding trace_print_location
no_top t end empty same =
    rw (same.same_enabled, same.same_flags, same.same_top, empty, trace_print_location) refl

-- What a function does by traced calls, however deep they nest, as long as the stack of locations
-- has room, leaves the location that is printed with an access as it was: that of the function
-- itself, or none where there was none.
pub location-Calls :
    (t end : Tracer)
    → (t.location_stack_top < 128) ⊎ (t.location_stack_top ≡ 2 ^ 32 - 1)
    → Calls t end
    → trace_print_location end ≡ trace_print_location t
location-Calls t end (inl small) run = top_file t end small (Calls-Same t end (omega arith) run)
location-Calls t end (inr empty) run = no_top t end empty (Calls-Same t end (omega arith) run)
