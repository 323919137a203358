-- ===== src/Options/Files.antt =====
-- The options of the simulator: what a whole command line of valid options sets.
use projet_s5_prog.Base.{
  ℕ, ◌≡◌, ◌≤◌, refl, arith, sym, ap, ◌∙◌, subst, Bool, true, false, List, [], ◌∷◌, Option, none,
  some,
}
use projet_s5_prog.Base.{◌==◌, if◌then◌else◌, length, if_both, Bool-cases, ==_iff, inl, inr}
use projet_s5_prog.Debug.{Debugged, none_debugged, add_debug_to, is_debugged}
use projet_s5_prog.Debug.Listed.{add_all, Traced, is_debugged-Traced}
use projet_s5_prog.Options.Given.{
  Shows, configure-Shows, last_argument, is_given, port_of, flag_bits,
}
use projet_s5_prog.Options.{
  Settings, Configured, ready, exits, faulty, defaults, with_debugged, set_option, after_option,
  configure, debug_names, is_valid, AreValid,
}

if_cases :
    {A : Type 0} (P : A → Type 0) (b : Bool) {x y : A}
    → (b ≡ true → P x)
    → (b ≡ false → P y)
    → P (if b then x else y)
if_cases P true px py = px refl
if_cases P false px py = py refl

-- the settings stay ready and keep the list of traced files
abbrev Keeps : Settings → Configured → Type 0
Keeps s (ready s') = s'.debugged ≡ s.debugged
Keeps s (exits status) = ⊥
Keeps s faulty = ⊥

added_one :
    (names : List (List ℕ)) (name : List ℕ) (d d' : Debugged)
    → add_all names ≡ some d
    → add_all (name ∷ names) ≡ some d'
    → add_debug_to d name ≡ some d'
unfolding add_all
added_one names name d d' held more = sym (rw held refl) ∙ more

none_held : add_all [] ≡ some none_debugged
unfolding add_all
none_held = refl

module _ (opens : List ℕ → Bool) where
  set_other :
      (opt : ℕ) (optarg : List ℕ) (s : Settings)
      → is_valid opens opt optarg ≡ true
      → (opt == b'd') ≡ false
      → Keeps s (set_option opens opt optarg s)
  unfolding set_option
  set_other opt optarg s valid other =
      if_cases (Keeps s) (opt == b'g') (λ e. refl)
        (λ not_g.
          if_cases (Keeps s) (opt == b'i') (λ e. refl)
            (λ not_i.
              if_cases (Keeps s) (opt == b'h') (λ e. ground arith)
                (λ not_h.
                  if_cases (Keeps s) (opt == b't')
                    (λ e.
                      if_cases (Keeps s) (opens optarg) (λ opened. refl) (λ closed. ground arith))
                    (λ not_t.
                      if_cases (Keeps s) (opt == b'r') (λ e. refl)
                        (λ not_r.
                          if_cases (Keeps s) (opt == b'm') (λ e. refl)
                            (λ not_m.
                              if_cases (Keeps s) (opt == b's') (λ e. refl)
                                (λ not_s.
                                  if_cases (Keeps s) (opt == b'p') (λ e. refl)
                                    (λ not_p.
                                      if_cases (Keeps s) (opt == b'd') (λ e. ground arith)
                                        (λ not_d. ground arith)))))))))

  set_debug :
      (optarg : List ℕ) (s : Settings)
      → set_option opens b'd' optarg s ≡ with_debugged s (add_debug_to s.debugged optarg)
  unfolding set_option
  set_debug optarg s = refl

  set_debug_ready :
      (opt : ℕ) (optarg : List ℕ) (s : Settings) (names : List (List ℕ)) (d' : Debugged)
      → opt ≡ b'd'
      → add_all names ≡ some s.debugged
      → add_all (optarg ∷ names) ≡ some d'
      → set_option opens opt optarg s ≡ ready (record s { debugged = d' })
  set_debug_ready opt optarg s names d' e held more =
      ap (λ (o : ℕ). set_option opens o optarg s) e
      ∙ set_debug optarg s
      ∙ ap (with_debugged s) (added_one names optarg s.debugged d' held more)

  goes_on :
      (opt : ℕ) (optarg : List ℕ) (rest : List (ℕ × List ℕ)) (s s' : Settings)
      → set_option opens opt optarg s ≡ ready s'
      → configure opens ((opt, optarg) ∷ rest) s ≡ configure opens rest s'
  unfolding configure
  goes_on opt optarg rest s s' e = ap (λ (c : Configured). after_option c (configure opens rest)) e

  kept :
      (s : Settings) (c : Configured)
      → Keeps s c
      → (s' : Settings) × (c ≡ ready s') × (s'.debugged ≡ s.debugged)
  kept s (ready s') h = (s', refl, h)
  kept s (exits status) h = absurd h
  kept s faulty h = absurd h

  debug_names-length :
      (options : List (ℕ × List ℕ)) (names : List (List ℕ))
      → length names ≤ length (debug_names options names)
  debug_names-length [] names = omega arith
  debug_names-length ((opt, optarg) ∷ rest) names =
      if_both (λ (n : List (List ℕ)). length names ≤ length (debug_names rest n)) (opt == b'd')
        (omega (arith, debug_names-length rest (optarg ∷ names))) (debug_names-length rest names)

  abbrev Ends : List (ℕ × List ℕ) → Settings → List (List ℕ) → Type 0
  Ends options s names =
      (s' : Settings) × (configure opens options s ≡ ready s')
      × (add_all (debug_names options names) ≡ some s'.debugged)

  -- the options behind one that has been set
  behind :
      (opt : ℕ) (optarg : List ℕ) (rest : List (ℕ × List ℕ)) (s s' : Settings)
      (names more : List (List ℕ))
      → set_option opens opt optarg s ≡ ready s'
      → (if opt == b'd' then optarg ∷ names else names) ≡ more
      → Ends rest s' more
      → Ends ((opt, optarg) ∷ rest) s names
  behind opt optarg rest s s' names more set same (last, ready_then, held) =
      (last, goes_on opt optarg rest s s' set ∙ ready_then, rw same held)

  pushed :
      (opt : ℕ) (optarg : List ℕ) (names : List (List ℕ))
      → (opt == b'd') ≡ true
      → (if opt == b'd' then optarg ∷ names else names) ≡ optarg ∷ names
  pushed opt optarg names h = rw h refl

  unpushed :
      (opt : ℕ) (optarg : List ℕ) (names : List (List ℕ))
      → (opt == b'd') ≡ false
      → (if opt == b'd' then optarg ∷ names else names) ≡ names
  unpushed opt optarg names h = rw h refl

  configured :
      (options : List (ℕ × List ℕ)) (s : Settings) (names : List (List ℕ))
      → AreValid opens options
      → add_all names ≡ some s.debugged
      → length (debug_names options names) ≤ 64
      → Ends options s names
  unfolding configure
  configured [] s names valid held le = (s, refl, held)
  configured ((opt, optarg) ∷ rest) s names (valid, valid_rest) held le =
      elim (Bool-cases (opt == b'd')) [
        | inl is_debug ↦
            let same = pushed opt optarg names is_debug in
            let room : length (debug_names rest (optarg ∷ names)) ≤ 64 =
              subst (λ (n : List (List ℕ)). length (debug_names rest n) ≤ 64) same le in
            let (d', more, traced) =
              is_debugged-Traced (optarg ∷ names) []
                (omega (arith, debug_names-length rest (optarg ∷ names))) in
            behind opt optarg rest s (record s { debugged = d' }) names (optarg ∷ names)
              (set_debug_ready opt optarg s names d' ((==_iff opt b'd').0 is_debug) held more) same
              (configured rest (record s { debugged = d' }) (optarg ∷ names) valid_rest more room)
        | inr other ↦
            let same = unpushed opt optarg names other in
            let room : length (debug_names rest names) ≤ 64 =
              subst (λ (n : List (List ℕ)). length (debug_names rest n) ≤ 64) same le in
            let (s', set, unchanged) = kept s _ (set_other opt optarg s valid other) in
            behind opt optarg rest s s' names names set same
              (configured rest s' names valid_rest (held ∙ ap some (sym unchanged)) room)
      ]

none_shown : Shows defaults none none none false false false false
none_shown = (refl, refl, refl, refl)

-- Valid options, among them at most 64 that name a file to trace, in any order and mixed with the
-- others, are all set: each port is the number of the last option for it, 0 without one, the trace
-- goes to the file of the last option that names one, the trace has the flag 1 for the memory, 2
-- for the registers, 4 for the state and 8 for the positions where an option asks for it, and the
-- search for a name ends and tells whether an option named it as a file to trace.
pub configure-Traced :
    (opens : List ℕ → Bool) (options : List (ℕ × List ℕ)) (name : List ℕ)
    → AreValid opens options
    → length (debug_names options []) ≤ 64
    → (x : Settings) × (configure opens options defaults ≡ ready x)
      × (x.gdb_port ≡ port_of (last_argument b'g' none options))
      × (x.irq_port ≡ port_of (last_argument b'i' none options))
      × (x.trace_file ≡ last_argument b't' none options)
      × (x.tracer.trace_flags
          ≡ flag_bits
              (is_given b'm' false options)
              (is_given b'r' false options)
              (is_given b's' false options)
              (is_given b'p' false options))
      × Traced (debug_names options []) name (is_debugged x.debugged name)
configure-Traced opens options name valid le =
    let (x, set, held) = configured opens options defaults [] valid none_held le in
    let (d, filled, traced) = is_debugged-Traced (debug_names options []) name le in
    let (gdb, irq, file, flags) =
      configure-Shows opens options x defaults none none none false false false false none_shown
        set in
    (
      x,
      set,
      gdb,
      irq,
      file,
      flags,
      subst (λ (o : Option Debugged). Traced (debug_names options []) name (searched o))
          (sym filled ∙ held) traced,
    )
  where
    searched : Option Debugged → Option Bool
    searched none = none
    searched (some d) = is_debugged d name
