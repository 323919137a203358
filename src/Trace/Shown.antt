-- ===== src/Trace/Shown.antt =====
-- What `trace_arm_state` shows of the processor.
use projet_s5_prog.Base.{
  Bool, subst, bit_and, true, false, codes, ℕ, zero, suc, ◌+◌, ◌%◌, ◌≡◌, refl, sym, ap, List, ◌++◌,
  Option, none, some, ltb, ◌==◌, ◌&&◌, ◌||◌, truthy, not, if◌then◌else◌,
}
use projet_s5_prog.Registers.{get_mode}
use projet_s5_prog.Core.{ArmCore, arm_read_register, arm_read_usr_register, arm_read_cpsr}
use projet_s5_prog.Trace.{Tracer, state}
use projet_s5_prog.Trace.Accesses.{Traced, print_text, traced_read_register}
use projet_s5_prog.Trace.Accesses.{traced_read_usr_register, traced_read_cpsr}
use projet_s5_prog.Trace.Names.{arm_get_mode_name, usr, fiq, irq, svc, abt, und, sys}
use projet_s5_prog.Trace.State.{
  eight_digits, field, broken_line, break_at, print_usr, print_banked, print_registers, print_end,
}
use projet_s5_prog.Trace.State.{print_mode, print_modes, arm_print_state, trace_arm_state}

-- two processors that read the same in the current mode and in the user mode
pub record Alike (p q : ArmCore) : Type 0 where
  pub same_cycles : p.cycle_count ≡ q.cycle_count
  pub same_mode : get_mode p.reg ≡ get_mode q.reg
  pub same_registers : (reg : ℕ) → arm_read_register p reg ≡ arm_read_register q reg
  pub same_usr_registers : (reg : ℕ) → arm_read_usr_register p reg ≡ arm_read_usr_register q reg
  pub same_cpsr : arm_read_cpsr p ≡ arm_read_cpsr q

-- the two processors, with one tracer
abbrev Twins : ArmCore → ArmCore → Traced → Traced → Type 0
Twins p q s t = (s.core ≡ p) × (t.core ≡ q) × (s.tracer ≡ t.tracer)

module _ {p q : ArmCore} (alike : Alike p q) where
  text_Twins :
      {s t : Traced} (x y : List ℕ)
      → Twins p q s t
      → x ≡ y
      → Twins p q (print_text s x) (print_text t y)
  text_Twins x y (a, b, c) e = (a, b, cc)

  read_register_Twins :
      {s t : Traced} (reg : ℕ)
      → Twins p q s t
      → Twins p q (traced_read_register s reg).1 (traced_read_register t reg).1
        × ((traced_read_register s reg).0 ≡ (traced_read_register t reg).0)
  unfolding traced_read_register
  read_register_Twins reg (a, b, c) =
      let cycles = alike.same_cycles in
      let mode = alike.same_mode in let value = alike.same_registers reg in ((a, b, cc), cc)

  read_usr_register_Twins :
      {s t : Traced} (reg : ℕ)
      → Twins p q s t
      → Twins p q (traced_read_usr_register s reg).1 (traced_read_usr_register t reg).1
        × ((traced_read_usr_register s reg).0 ≡ (traced_read_usr_register t reg).0)
  unfolding traced_read_usr_register
  read_usr_register_Twins reg (a, b, c) =
      let cycles = alike.same_cycles in let value = alike.same_usr_registers reg in ((a, b, cc), cc)

  read_cpsr_Twins :
      {s t : Traced}
      → Twins p q s t
      → Twins p q (traced_read_cpsr s).1 (traced_read_cpsr t).1
        × ((traced_read_cpsr s).0 ≡ (traced_read_cpsr t).0)
  unfolding traced_read_cpsr
  read_cpsr_Twins (a, b, c) =
      let cycles = alike.same_cycles in let value = alike.same_cpsr in ((a, b, cc), cc)

  if_Twins :
      (b : Bool) {s t s' t' : Traced}
      → Twins p q s t
      → Twins p q s' t'
      → Twins p q (if b then s else s') (if b then t else t')
  if_Twins true h k = h
  if_Twins false h k = k

  break_Twins :
      (count : ℕ) {s t : Traced} → Twins p q s t → Twins p q (break_at count s) (break_at count t)
  unfolding break_at
  break_Twins count h =
      if_Twins (ltb 0 count && (count % 5 == 0)) (text_Twins broken_line broken_line h refl) h

  usr_Twins :
      (reg : ℕ) {s t : Traced} → Twins p q s t → Twins p q (print_usr reg s) (print_usr reg t)
  unfolding print_usr
  usr_Twins reg h =
      let read = read_usr_register_Twins reg (break_Twins reg h) in
      text_Twins _ _ read.0 (ap (field reg) read.1)

  banked_Twins :
      (reg count : ℕ) {s t : Traced}
      → Twins p q s t
      → Twins p q (print_banked reg count s) (print_banked reg count t)
  unfolding print_banked
  banked_Twins reg count h =
      let read = read_register_Twins reg (break_Twins count h) in
      text_Twins _ _ read.0 (ap (field reg) read.1)

  registers_Twins :
      (mode left reg count : ℕ) {s t : Traced}
      → Twins p q s t
      → Twins p q (print_registers mode left reg count s) (print_registers mode left reg count t)
  unfolding print_registers
  registers_Twins mode zero reg count h = h
  registers_Twins mode (suc left) reg count h =
      registers_Twins mode left (reg + 1) _
        (if_Twins (mode == usr) (usr_Twins reg h) (banked_Twins reg count h))

  end_Twins :
      (mode : ℕ) {s t : Traced} → Twins p q s t → Twins p q (print_end mode s) (print_end mode t)
  unfolding print_end
  end_Twins mode {s} {t} h =
      let read = read_cpsr_Twins h in
      let flags =
        if_Twins (mode == usr)
          (text_Twins _ _ read.0 (ap (λ (v : ℕ). codes "  CPSR=" ++ eight_digits 8 v) read.1)) h in
      if_Twins (mode == usr || mode == fiq || mode == svc || mode == und)
        (text_Twins _ _ flags refl)
        (if_Twins (mode == irq || mode == abt) (text_Twins _ _ flags refl) flags)

  mode_Twins :
      (mode : ℕ) (name : List ℕ) {s t : Traced}
      → Twins p q s t
      → Twins p q (print_mode mode name s) (print_mode mode name t)
  unfolding print_mode
  mode_Twins mode name h =
      end_Twins mode
        (registers_Twins mode 16 0 0 (if_Twins (not (mode == sys)) (text_Twins _ _ h refl) h))

  named_Twins :
      (mode : ℕ) (o : Option (List ℕ)) {s t : Traced}
      → Twins p q s t
      → Twins p q
          (elim o [ none ↦ s | some name ↦ print_mode mode name s ])
          (elim o [ none ↦ t | some name ↦ print_mode mode name t ])
  named_Twins mode none h = h
  named_Twins mode (some name) h = mode_Twins mode name h

  modes_Twins :
      (left mode : ℕ) {s t : Traced}
      → Twins p q s t
      → Twins p q (print_modes left mode s) (print_modes left mode t)
  unfolding print_modes
  modes_Twins zero mode h = h
  modes_Twins (suc left) mode h =
      modes_Twins left (mode + 1) (named_Twins mode (arm_get_mode_name mode) h)

-- the condition of `trace_arm_state`
abbrev prints_state : Tracer → Bool
prints_state x = x.enabled && truthy (bit_and x.trace_flags state)

-- Two processors in the same mode, with the same cycle count, tracer and CPSR, that read the same
-- registers in their current mode and in the user mode, print the same under the headings of
-- all modes, whatever stands in the registers of the other modes; and printing changes neither.
pub trace_arm_state_shows :
    (s t : Traced)
    → Alike s.core t.core
    → s.tracer ≡ t.tracer
    → ((trace_arm_state s).tracer ≡ (trace_arm_state t).tracer)
      × ((trace_arm_state s).core ≡ s.core)
      × ((trace_arm_state t).core ≡ t.core)
unfolding trace_arm_state arm_print_state
trace_arm_state_shows s t alike same =
    let start : Twins s.core t.core s t = (refl, refl, same) in
    let printing = if_Twins alike (prints_state t.tracer) (modes_Twins alike 32 0 start) start in
    let twins =
      subst
        (λ (b : Bool).
          Twins s.core t.core (if b then print_modes 32 0 s else s)
            (if prints_state t.tracer then print_modes 32 0 t else t))
        (sym (ap prints_state same)) printing in
    (twins.2, twins.0, twins.1)
