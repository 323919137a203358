-- ===== src/Instruction/Outcomes.antt =====
-- How a step of the simulator ends.
use projet_s5_prog.Base.{ℕ, ◌%◌, ◌^◌, ◌≡◌, ◌↔◌, ◌⊎◌, inl, inr, refl, arith}
use projet_s5_prog.Base.{◌==◌, Bool-cases, if_both, truthy}
use projet_s5_prog.Util.{get_bit, get_bits, Undefined}
use projet_s5_prog.Core.{ArmCore, arm_fetch}
use projet_s5_prog.Branch.{Outcome, ran, exited, arm_coprocessor_others_swi}
use projet_s5_prog.Instruction.{execute_class, arm_execute_instruction, drop_code, raise, arm_step}

module _ (u : Undefined) where
  class_exits :
      (p : ArmCore) (ins : ℕ) → (execute_class u p ins ≡ exited 0) ↔ (ins % 2 ^ 28 ≡ 0xF12_3456)
  unfolding execute_class arm_coprocessor_others_swi drop_code
  class_exits p ins = ground arith

-- the two ways in which a step ends
abbrev pub Ends : Outcome → Type 0
Ends o = (o ≡ exited 0) ⊎ ((p' : ArmCore) × (o ≡ ran 0 p'))

swi-Ends : (p : ArmCore) (ins : ℕ) → Ends (drop_code (arm_coprocessor_others_swi p ins))
unfolding arm_coprocessor_others_swi drop_code
swi-Ends p ins = elim (Bool-cases (truthy (get_bit ins 24))) [
  | inr clear ↦ rw clear (inr (p, refl))
  | inl set ↦ elim (Bool-cases (ins % 2 ^ 24 == 0x12_3456)) [
    | inl stop ↦ rw (set, stop) (inl refl)
    | inr go ↦ rw (set, go) (inr (p, refl))
  ]
]

class-Ends : (u : Undefined) (p : ArmCore) (ins : ℕ) → Ends (execute_class u p ins)
unfolding execute_class
class-Ends u p ins = if_both Ends (get_bits ins 27 25 == 0) (inr (_, refl)) (
    if_both Ends (get_bits ins 27 25 == 1) (inr (_, refl)) (
      if_both Ends (get_bits ins 27 25 == 4) (inr (_, refl)) (
        if_both Ends (get_bits ins 27 25 == 5) (inr (_, refl)) (
          if_both Ends (get_bits ins 27 25 == 6) (inr (_, refl))
            (if_both Ends (get_bits ins 27 25 == 7) (swi-Ends p ins) (inr (_, refl)))))))

-- A step ends in one of two ways: the simulator exits with status 0, or the step returns 0. So no
-- step ever raises an exception, whatever the instruction's handler returned.
pub arm_step_returns_zero : (u : Undefined) (p : ArmCore) → Ends (arm_step u p)
unfolding arm_step raise arm_execute_instruction
arm_step_returns_zero u p = elim (class-Ends u (arm_fetch p).core (arm_fetch p).value) [
  | inl e ↦ inl (rw e)
  | inr (p', e) ↦ inr (p', rw e)
]

-- The simulator exits exactly on the word `swi 0x123456`, with any condition field: also where the
-- condition fails.
pub arm_step_exits :
    (u : Undefined) (p : ArmCore)
    → (arm_step u p ≡ exited 0) ↔ ((arm_fetch p).value % 2 ^ 28 ≡ 0xF12_3456)
unfolding arm_step raise arm_execute_instruction
arm_step_exits u p = ground (
  arith,
  class_exits u (arm_fetch p).core (arm_fetch p).value,
  class-Ends u (arm_fetch p).core (arm_fetch p).value,
)
