-- ===== src/Options/Given.antt =====
-- What the options set, beside a description of the command line for each setting.
use projet_s5_prog.Base.{
  ℕ, ◌+◌, ◌*◌, ◌≡◌, refl, arith, sym, subst, Bool, true, false, List, [], ◌∷◌, Option, none, some,
}
use projet_s5_prog.Base.{
  ◌==◌, ◌||◌, if◌then◌else◌, u16, int_of, bit_or, if_both, Bool-cases, ==_iff, inl, inr,
}
use projet_s5_prog.Base.Scan.{atoi}
use projet_s5_prog.Trace.{trace_add}
use projet_s5_prog.Options.{
  Settings, Configured, ready, exits, faulty, with_debugged, set_option, after_option, configure,
}
use projet_s5_prog.Debug.{Debugged}

-- the argument of the last option with a letter, or what was known before
abbrev pub last_argument : ℕ → Option (List ℕ) → List (ℕ × List ℕ) → Option (List ℕ)
last_argument letter before [] = before
last_argument letter before ((opt, optarg) ∷ rest) =
    last_argument letter (if opt == letter then some optarg else before) rest

-- whether there is an option with a letter
abbrev pub is_given : ℕ → Bool → List (ℕ × List ℕ) → Bool
is_given letter before [] = before
is_given letter before ((opt, optarg) ∷ rest) = is_given letter ((opt == letter) || before) rest

abbrev pub port_of : Option (List ℕ) → ℕ
port_of none = 0
port_of (some text) = u16 (atoi text)

-- a bit for each of the four kinds of trace
abbrev pub flag_bits : Bool → Bool → Bool → Bool → ℕ
flag_bits m r s p = int_of m + 2 * int_of r + 4 * int_of s + 8 * int_of p

abbrev pub Shows :
    Settings
    → Option (List ℕ)
    → Option (List ℕ)
    → Option (List ℕ)
    → Bool
    → Bool
    → Bool
    → Bool
    → Type 0
Shows x g i t m r s p =
    (x.gdb_port ≡ port_of g)
    × (x.irq_port ≡ port_of i)
    × (x.trace_file ≡ t)
    × (x.tracer.trace_flags ≡ flag_bits m r s p)

or_memory : (m r s p : Bool) → bit_or (flag_bits m r s p) 1 ≡ flag_bits true r s p
or_memory m r s p = ground arith

or_registers : (m r s p : Bool) → bit_or (flag_bits m r s p) 2 ≡ flag_bits m true s p
or_registers m r s p = ground arith

or_state : (m r s p : Bool) → bit_or (flag_bits m r s p) 4 ≡ flag_bits m r true p
or_state m r s p = ground arith

or_position : (m r s p : Bool) → bit_or (flag_bits m r s p) 8 ≡ flag_bits m r s true
or_position m r s p = ground arith

by_letter : (P : ℕ → Type 0) (letter opt : ℕ) → P letter → ((opt == letter) ≡ false → P opt) → P opt
by_letter P letter opt at others = elim (Bool-cases (opt == letter)) [
  | inl same ↦ subst P (sym ((==_iff opt letter).0 same)) at
  | inr other ↦ others other
]

module _ (opens : List ℕ → Bool) where
  -- what the settings show behind one option
  abbrev After :
      ℕ
      → List ℕ
      → Option (List ℕ)
      → Option (List ℕ)
      → Option (List ℕ)
      → Bool
      → Bool
      → Bool
      → Bool
      → Configured
      → Type 0
  After opt optarg g i t m r s p (ready x) =
      Shows x (if opt == b'g' then some optarg else g) (if opt == b'i' then some optarg else i)
        (if opt == b't' then some optarg else t) ((opt == b'm') || m) ((opt == b'r') || r)
        ((opt == b's') || s) ((opt == b'p') || p)
  After opt optarg g i t m r s p (exits status) = Unit
  After opt optarg g i t m r s p faulty = Unit

  module _ (optarg : List ℕ) (x : Settings) (g i t : Option (List ℕ)) (m r s p : Bool) where
    abbrev Sets : ℕ → Type 0
    Sets opt = After opt optarg g i t m r s p (set_option opens opt optarg x)

    debugged-After :
        (o : Option Debugged)
        → Shows x g i t m r s p
        → After b'd' optarg g i t m r s p (with_debugged x o)
    debugged-After none h = tt
    debugged-After (some d) h = h

    file-After : Shows x g i t m r s p → Sets b't'
    unfolding set_option
    file-After (hg, hi, ht, hf) =
        if_both (After b't' optarg g i t m r s p) (opens optarg) (hg, hi, refl, hf) tt

    set_option-After : (opt : ℕ) → Shows x g i t m r s p → Sets opt
    unfolding set_option trace_add
    set_option-After opt (hg, hi, ht, hf) =
        by_letter Sets b'g' opt (refl, hi, ht, hf)
          (λ not_g.
            by_letter Sets b'i' opt (hg, refl, ht, hf)
              (λ not_i. by_letter Sets b't' opt (file-After (hg, hi, ht, hf)) (λ not_t.
                by_letter Sets b'm' opt (hg, hi, ht, rw hf (or_memory m r s p))
                  (λ not_m.
                    by_letter Sets b'r' opt (hg, hi, ht, rw hf (or_registers m r s p))
                      (λ not_r.
                        by_letter Sets b's' opt (hg, hi, ht, rw hf (or_state m r s p))
                          (λ not_s.
                            by_letter Sets b'p' opt (hg, hi, ht, rw hf (or_position m r s p))
                              (λ not_p.
                                by_letter Sets b'd' opt (debugged-After _ (hg, hi, ht, hf))
                                  (λ not_d. by_letter Sets b'h' opt tt (λ not_h.
                                    rw
                                      (
                                        not_g, not_i, not_h, not_t, not_r, not_m, not_s, not_p,
                                        not_d,
                                      )
                                      tt)))))))))

  abbrev pub Ends :
      Option (List ℕ)
      → Option (List ℕ)
      → Option (List ℕ)
      → Bool
      → Bool
      → Bool
      → Bool
      → List (ℕ × List ℕ)
      → Settings
      → Type 0
  Ends g i t m r s p options x =
      Shows x (last_argument b'g' g options) (last_argument b'i' i options)
        (last_argument b't' t options) (is_given b'm' m options) (is_given b'r' r options)
        (is_given b's' s options) (is_given b'p' p options)

  given-Shows :
      (opt : ℕ) (optarg : List ℕ) (rest : List (ℕ × List ℕ)) (c : Configured) (y : Settings)
      (g i t : Option (List ℕ)) (m r s p : Bool)
      → ((x : Settings) (g i t : Option (List ℕ)) (m r s p : Bool)
          → Shows x g i t m r s p
          → configure opens rest x ≡ ready y
          → Ends g i t m r s p rest y)
      → After opt optarg g i t m r s p c
      → after_option c (configure opens rest) ≡ ready y
      → Ends g i t m r s p ((opt, optarg) ∷ rest) y
  given-Shows opt optarg rest (ready x) y g i t m r s p next h e = next x _ _ _ _ _ _ _ h e
  given-Shows opt optarg rest (exits status) y g i t m r s p next h e = absurd (ground arith)
  given-Shows opt optarg rest faulty y g i t m r s p next h e = absurd (ground arith)

  pub configure-Shows :
      (options : List (ℕ × List ℕ)) (y x : Settings) (g i t : Option (List ℕ)) (m r s p : Bool)
      → Shows x g i t m r s p
      → configure opens options x ≡ ready y
      → Ends g i t m r s p options y
  unfolding configure
  configure-Shows [] y x g i t m r s p h e = subst (λ (c : Configured). shown c) e h
    where
      shown : Configured → Type 0
      shown (ready z) = Shows z g i t m r s p
      shown (exits status) = Unit
      shown faulty = Unit
  configure-Shows ((opt, optarg) ∷ rest) y x g i t m r s p h e =
      given-Shows opt optarg rest (set_option opens opt optarg x) y g i t m r s p
        (configure-Shows rest y) (set_option-After optarg x g i t m r s p opt h) e
