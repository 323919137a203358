-- ===== src/Trace/State.antt =====
-- `arm_print_state` of arm_core.c and `trace_arm_state` of trace.c, its only caller: the text goes to
-- the tracer's output, and so do the lines of the readings that it makes.
use projet_s5_prog.Base.{ℕ, zero, suc, ◌+◌, ◌-◌, ◌/◌, ◌%◌, List, [], ◌∷◌, ◌++◌, none, some}
use projet_s5_prog.Base.{ltb, ◌==◌, ◌&&◌, ◌||◌, not, truthy, if◌then◌else◌, codes, length, bit_and}
use projet_s5_prog.Trace.{state}
use projet_s5_prog.Trace.Accesses.{Traced, print_text, traced_read_register}
use projet_s5_prog.Trace.Accesses.{traced_read_usr_register, traced_read_cpsr}
use projet_s5_prog.Trace.Names.{arm_get_mode_name, arm_get_register_name}
use projet_s5_prog.Trace.Names.{usr, fiq, irq, svc, abt, und, sys}

-- `%X` of one digit, and `%08X`
abbrev digit : ℕ → ℕ
digit d = if ltb d 10 then b'0' + d else b'A' - 10 + d

unfoldable pub eight_digits : ℕ → ℕ → List ℕ
eight_digits zero value = []
eight_digits (suc n) value = eight_digits n (value / 16) ++ (digit (value % 16) ∷ [])

-- `%3s`
unfoldable pub at_right : ℕ → List ℕ → List ℕ
at_right zero text = text
at_right (suc missing) text = b' ' ∷ at_right missing text

-- `"   %3s=%08X"`
unfoldable pub field : ℕ → ℕ → List ℕ
field reg value =
    let name = arm_get_register_name reg in
    codes "   " ++ (at_right (3 - length name) name ++ (codes "=" ++ eight_digits 8 value))

-- `"\n    "`
unfoldable pub broken_line : List ℕ
broken_line = 10 ∷ codes "    "

-- a line break before every fifth register but the first
unfoldable pub break_at : ℕ → Traced → Traced
break_at count s = if ltb 0 count && (count % 5 == 0) then print_text s broken_line else s

-- a register of the user mode, and one as the current mode has it
unfoldable pub print_usr : ℕ → Traced → Traced
print_usr reg s =
    let read = traced_read_usr_register (break_at reg s) reg in print_text read.1 (field reg read.0)

unfoldable pub print_banked : ℕ → ℕ → Traced → Traced
print_banked reg count s =
    let read = traced_read_register (break_at count s) reg in print_text read.1 (field reg read.0)

-- the inner loop, with the registers left; `count` grows only outside of the user mode.
unfoldable pub print_registers : ℕ → ℕ → ℕ → ℕ → Traced → Traced
print_registers mode zero reg count s = s
print_registers mode (suc left) reg count s =
    print_registers mode left (reg + 1) (if mode == usr then count else count + 1)
      (if mode == usr then print_usr reg s else print_banked reg count s)

-- what stands behind the registers of a mode
unfoldable pub print_end : ℕ → Traced → Traced
print_end mode s =
    let read = traced_read_cpsr s in
    let flags =
      if mode == usr then print_text read.1 (codes "  CPSR=" ++ eight_digits 8 read.0) else s in
    if mode == usr || mode == fiq || mode == svc || mode == und
    then print_text flags (10 ∷ [])
    else if mode == irq || mode == abt
    then print_text flags (codes "          ")
    else flags

unfoldable pub print_mode : ℕ → List ℕ → Traced → Traced
print_mode mode name s =
    let headed = if not (mode == sys) then print_text s (name ++ codes ":") else s in
    print_end mode (print_registers mode 16 0 0 headed)

-- the outer loop, with the modes left
unfoldable pub print_modes : ℕ → ℕ → Traced → Traced
print_modes zero mode s = s
print_modes (suc left) mode s =
    print_modes left (mode + 1)
      (elim (arm_get_mode_name mode) [ none ↦ s | some name ↦ print_mode mode name s ])

unfoldable pub arm_print_state : Traced → Traced
arm_print_state s = print_modes 32 0 s

unfoldable pub trace_arm_state : Traced → Traced
trace_arm_state s =
    if s.tracer.enabled && truthy (bit_and s.tracer.trace_flags state) then arm_print_state s else s
