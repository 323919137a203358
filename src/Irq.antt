-- ===== src/Irq.antt =====
-- The names of the exceptions, of arm_constants.c, and how send_irq.c finds the exception that the
-- user names. Its sockets are left out: the byte that it writes to one is the result here, and that
-- which `irq_listener` of the simulator reads.
use projet_s5_prog.Base.{
  ℕ, zero, suc, ◌+◌, ◌<◌, ◌≤◌, ◌≡◌, ◌≢◌, refl, arith, sym, ap, ◌∙◌, List, [], ◌∷◌, Option, none,
  some,
}
use projet_s5_prog.Base.{ltb, if◌then◌else◌, u8, codes, get_or, strcmp, is_eq, subst}
use projet_s5_prog.Base.Order.{strcmp_same, strcmp_eq}
use projet_s5_prog.Exception.{reset}
use Prim.Native.Nat.{Ordering}
use native.Mathlib.Decide.{dec_lt}

-- `INTERRUPT`, the default
abbrev pub interrupt : ℕ
interrupt = 6

abbrev pub arm_exception_names : List (Option (List ℕ))
arm_exception_names =
    none
    ∷ some (codes "reset")
    ∷ some (codes "undefined instruction")
    ∷ some (codes "software interrupt")
    ∷ some (codes "prefetch abort")
    ∷ some (codes "data abort")
    ∷ some (codes "interrupt")
    ∷ some (codes "fast interrupt")
    ∷ []

unfoldable pub arm_get_exception_name : ℕ → Option (List ℕ)
arm_get_exception_name exception =
    if ltb exception 8 then get_or none arm_exception_names exception else none

-- the byte that is sent, the end with status 2, or not enough fuel
pub data Chosen : Type 0 where
  sends : ℕ → Chosen
  unknown searching : Chosen

-- the loop over the names, on fuel
unfoldable pub find_irq : ℕ → ℕ → List ℕ → Chosen
find_irq zero irq name = searching
find_irq (suc fuel) irq name =
    let rest = find_irq fuel (u8 (irq + 1)) name in
    elim (arm_get_exception_name irq) [
      | none ↦ unknown
      | some text ↦ if is_eq (strcmp text name) then sends irq else rest
    ]

-- with a third argument, the name, or without; there are eight values to try at most.
unfoldable pub chosen_irq : Option (List ℕ) → Chosen
chosen_irq none = sends interrupt
chosen_irq (some name) = find_irq 8 reset name

-- what is to be sent for a name
pub data Named (name : List ℕ) : Chosen → Type 0 where
  named : (irq : ℕ) → irq < 8 → arm_get_exception_name irq ≡ some name → Named name (sends irq)
  unnamed : ((irq : ℕ) → arm_get_exception_name irq ≢ some name) → Named name unknown

no_name_zero : (name : List ℕ) → arm_get_exception_name 0 ≢ some name
unfolding arm_get_exception_name
no_name_zero name e = ground arith

no_name_above : (irq : ℕ) (name : List ℕ) → 8 ≤ irq → arm_get_exception_name irq ≢ some name
unfolding arm_get_exception_name
no_name_above irq name h e = ground arith

has_name : (irq : ℕ) → 0 < irq → irq < 8 → arm_get_exception_name irq ≢ none
unfolding arm_get_exception_name
has_name zero h k e = absurd (omega arith)
has_name (suc zero) h k e = ground arith
has_name (suc (suc zero)) h k e = ground arith
has_name (suc (suc (suc zero))) h k e = ground arith
has_name (suc (suc (suc (suc zero)))) h k e = ground arith
has_name (suc (suc (suc (suc (suc zero))))) h k e = ground arith
has_name (suc (suc (suc (suc (suc (suc zero)))))) h k e = ground arith
has_name (suc (suc (suc (suc (suc (suc (suc zero))))))) h k e = ground arith
has_name (suc (suc (suc (suc (suc (suc (suc (suc irq)))))))) h k e = absurd (omega arith)

module _ (name : List ℕ) where
  abbrev Unmatched : ℕ → Type 0
  Unmatched irq = (k : ℕ) → k < irq → arm_get_exception_name k ≢ some name

  beyond :
      (irq : ℕ)
      → Unmatched irq
      → 0 < irq
      → arm_get_exception_name irq ≡ none
      → (k : ℕ) → arm_get_exception_name k ≢ some name
  beyond irq before h ends k = elim (dec_lt k irq) [
    | yes earlier ↦ before k earlier
    | no later ↦ elim (dec_lt irq 8) [
      | yes small ↦ absurd (has_name irq h small ends)
      | no large ↦ no_name_above k name (omega arith)
    ]
  ]

  below_eight : (irq : ℕ) (text : List ℕ) → arm_get_exception_name irq ≡ some text → irq < 8
  below_eight irq text e = elim (dec_lt irq 8) [
    | yes small ↦ small
    | no large ↦ absurd (no_name_above irq text (omega arith) e)
  ]

  one_more :
      (irq : ℕ) → Unmatched irq → arm_get_exception_name irq ≢ some name → Unmatched (irq + 1)
  one_more irq before h k lt = elim (dec_lt k irq) [
    | yes earlier ↦ before k earlier
    | no later ↦ subst (λ (m : ℕ). arm_get_exception_name m ≢ some name) (omega arith) h
  ]

  abbrev compared : Option (List ℕ) → Ordering
  compared none = Ordering.lt
  compared (some text) = strcmp text name

  by_name :
      (fuel irq : ℕ) (o : Option (List ℕ))
      → arm_get_exception_name irq ≡ o
      → 0 < irq
      → Unmatched irq
      → (irq < 8 → Unmatched (irq + 1) → Named name (find_irq fuel (u8 (irq + 1)) name))
      → Named name (elim o [
        | none ↦ unknown
        | some text ↦
            if is_eq (strcmp text name) then sends irq else find_irq fuel (u8 (irq + 1)) name
      ])
  by_name fuel irq none e h before next = unnamed (beyond irq before h e)
  by_name fuel irq (some text) e h before next = by_order (strcmp text name) refl
    where
      differs : strcmp text name ≢ Ordering.eq → arm_get_exception_name irq ≢ some name
      differs other same = other (ap compared (sym e ∙ same) ∙ strcmp_same name)

      by_order :
          (o : Ordering)
          → strcmp text name ≡ o
          → Named name (if is_eq o then sends irq else find_irq fuel (u8 (irq + 1)) name)
      by_order Ordering.eq same =
          named irq (below_eight irq text e) (e ∙ ap some (strcmp_eq text name same))
      by_order Ordering.lt same =
          next (below_eight irq text e)
            (one_more irq before (differs (λ equal. ground (arith, same, equal))))
      by_order Ordering.gt same =
          next (below_eight irq text e)
            (one_more irq before (differs (λ equal. ground (arith, same, equal))))

  find_irq-Named :
      (fuel irq : ℕ)
      → 0 < irq
      → irq < 9
      → irq + fuel ≡ 9
      → Unmatched irq
      → Named name (find_irq fuel irq name)
  unfolding find_irq
  find_irq-Named zero irq h k e before = absurd (omega arith)
  find_irq-Named (suc fuel) irq h k e before =
      by_name fuel irq (arm_get_exception_name irq) refl h before (λ small after.
        subst (λ (m : ℕ). Named name (find_irq fuel m name)) (omega arith)
          (find_irq-Named fuel (irq + 1) (omega arith) (omega arith) (omega arith) after))

-- The search for a name ends: it sends a number with that name, below 8, where there is one, and
-- reports an unknown name where there is none.
pub chosen_irq-Named : (name : List ℕ) → Named name (chosen_irq (some name))
unfolding chosen_irq
chosen_irq-Named name = find_irq-Named name 8 1 (omega arith) (omega arith) refl (λ k h.
    subst (λ (m : ℕ). arm_get_exception_name m ≢ some name) (omega arith) (no_name_zero name))
