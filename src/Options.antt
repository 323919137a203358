-- ===== src/Options.antt =====
-- The options of the simulator, of `main` in arm_simulator.c. What `getopt_long` finds on the command
-- line is a list: the character of each option, and its argument where it has one. `opens` says
-- which files `fopen` can open for writing.
use projet_s5_prog.Base.{
  ℕ, ◌≡◌, ◌≤◌, refl, arith, sym, ap, ◌∙◌, subst, Bool, true, false, List, [], ◌∷◌, Option, none,
  some,
}
use projet_s5_prog.Base.{
  ◌==◌, if◌then◌else◌, u16, length, if_both, Bool-cases, ==_iff, ◌⊎◌, inl, inr, ◌&&◌, ◌||◌,
}
use projet_s5_prog.Base.Scan.{atoi}
use projet_s5_prog.Trace.{memory, registers, state, position, Tracer, trace_start, trace_add}
use projet_s5_prog.Debug.{Debugged, none_debugged, add_debug_to, is_debugged}
use projet_s5_prog.Debug.Listed.{add_all, Traced, is_debugged-Traced}
pub mod Given
pub mod Files

-- what the options set; the file is none for the standard output.
pub record Settings : Type 0 where
  pub gdb_port : ℕ
  pub irq_port : ℕ
  pub trace_file : Option (List ℕ)
  pub tracer : Tracer
  pub debugged : Debugged

-- set, or the end with a status, or a write past the list of traced files
pub data Configured : Type 0 where
  ready : Settings → Configured
  exits : ℕ → Configured
  faulty : Configured

abbrev pub defaults : Settings
defaults = record {
  gdb_port = 0;
  irq_port = 0;
  trace_file = none;
  tracer = trace_start;
  debugged = none_debugged;
}

abbrev pub with_flags : Settings → ℕ → Configured
with_flags s flags = ready (record s { tracer = trace_add s.tracer flags })

abbrev pub with_debugged : Settings → Option Debugged → Configured
with_debugged s none = faulty
with_debugged s (some d) = ready (record s { debugged = d })

abbrev pub after_option : Configured → (Settings → Configured) → Configured
after_option (ready s) next = next s
after_option (exits status) next = exits status
after_option faulty next = faulty

module _ (opens : List ℕ → Bool) where
  -- the `switch` on an option
  unfoldable pub set_option : ℕ → List ℕ → Settings → Configured
  set_option opt optarg s =
      if opt == b'g'
      then ready (record s { gdb_port = u16 (atoi optarg) })
      else if opt == b'i'
      then ready (record s { irq_port = u16 (atoi optarg) })
      else if opt == b'h'
      then exits 0
      else if opt == b't'
      then (if opens optarg then ready (record s { trace_file = some optarg }) else exits 1)
      else if opt == b'r'
      then with_flags s registers
      else if opt == b'm'
      then with_flags s memory
      else if opt == b's'
      then with_flags s state
      else if opt == b'p'
      then with_flags s position
      else if opt == b'd'
      then with_debugged s (add_debug_to s.debugged optarg)
      else exits 1

  unfoldable pub configure : List (ℕ × List ℕ) → Settings → Configured
  configure [] s = ready s
  configure ((opt, optarg) ∷ rest) s = after_option (set_option opt optarg s) (configure rest)

-- the names of the files to trace, the last one first, on top of those before
abbrev pub debug_names : List (ℕ × List ℕ) → List (List ℕ) → List (List ℕ)
debug_names [] names = names
debug_names ((opt, optarg) ∷ rest) names =
    debug_names rest (if opt == b'd' then optarg ∷ names else names)

-- an option of the program, other than the request for help, whose file can be opened
abbrev pub is_valid : (List ℕ → Bool) → ℕ → List ℕ → Bool
is_valid opens opt optarg =
    opt == b'g'
    || opt == b'i'
    || opt == b'r'
    || opt == b'm'
    || opt == b's'
    || opt == b'p'
    || opt == b'd'
    || ((opt == b't') && opens optarg)

abbrev pub AreValid : (List ℕ → Bool) → List (ℕ × List ℕ) → Type 0
AreValid opens [] = Unit
AreValid opens ((opt, optarg) ∷ rest) = (is_valid opens opt optarg ≡ true) × AreValid opens rest
