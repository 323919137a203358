-- ===== src/Core/Conditions.antt =====
-- The condition codes of `conditionPassed`.
use projet_s5_prog.Base.{ℕ, ◌+◌, ◌%◌, ◌<◌, ◌≡◌, ◌⊎◌, inl, inr, refl, arith}
use projet_s5_prog.Util.{get_bits}
use projet_s5_prog.Core.{ArmCore, condition_passed}

-- the condition field of an instruction
abbrev pub cond_of : ℕ → ℕ
cond_of ins = get_bits ins 31 28

even_cases :
    (c : ℕ)
    → c < 14
    → c % 2 ≡ 0
    → (c ≡ 0) ⊎ ((c ≡ 2) ⊎ ((c ≡ 4) ⊎ ((c ≡ 6) ⊎ ((c ≡ 8) ⊎ ((c ≡ 10) ⊎ (c ≡ 12))))))
even_cases c low even = omega arith

module _ (p : ArmCore) (ins ins' : ℕ) where
  -- Both conditions are read off the same flags, once their codes are known.
  abbrev IsComplementary : Type 0
  IsComplementary = condition_passed p ins + condition_passed p ins' ≡ 1

  complementary_at :
      (c : ℕ) → c < 14 → c % 2 ≡ 0 → cond_of ins ≡ c → cond_of ins' ≡ c + 1 → IsComplementary
  unfolding condition_passed
  complementary_at c low even e e' = elim (even_cases c low even) [
    | inl k ↦ rw (e, e', k) (ground arith)
    | inr (inl k) ↦ rw (e, e', k) (ground arith)
    | inr (inr (inl k)) ↦ rw (e, e', k) (ground arith)
    | inr (inr (inr (inl k))) ↦ rw (e, e', k) (ground arith)
    | inr (inr (inr (inr (inl k)))) ↦ rw (e, e', k) (ground arith)
    | inr (inr (inr (inr (inr (inl k))))) ↦ rw (e, e', k) (ground arith)
    | inr (inr (inr (inr (inr (inr k))))) ↦ rw (e, e', k) (ground arith)
  ]

-- For every even condition below 14, an instruction with that condition and one with the next
-- condition pass in opposite states: exactly one of the two passes, with code 1.
conditions_complementary :
    (p : ArmCore) (ins ins' : ℕ)
    → cond_of ins < 14
    → cond_of ins % 2 ≡ 0
    → cond_of ins' ≡ cond_of ins + 1
    → condition_passed p ins + condition_passed p ins' ≡ 1
conditions_complementary p ins ins' low even next =
    complementary_at p ins ins' (cond_of ins) low even refl next

pub condition_always : (p : ArmCore) (ins : ℕ) → cond_of ins ≡ 14 → condition_passed p ins ≡ 1
unfolding condition_passed
condition_always p ins e = rw e

pub condition_extended : (p : ArmCore) (ins : ℕ) → cond_of ins ≡ 15 → condition_passed p ins ≡ 15
unfolding condition_passed
condition_extended p ins e = rw e
