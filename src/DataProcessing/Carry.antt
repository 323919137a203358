-- ===== src/DataProcessing/Carry.antt =====
-- The carry flag of additions and subtractions, which compare signed words.
use projet_s5_prog.Base.{ℕ, ◌+◌, ◌/◌, ◌%◌, ◌^◌, ◌<◌, ◌≤◌, ◌≡◌, ◌≢◌, arith}
use projet_s5_prog.Base.{◌==◌, ltb, if◌then◌else◌, int_of}
use projet_s5_prog.Util.{get_bit}
use projet_s5_prog.Core.{ArmCore}
use projet_s5_prog.DataProcessing.{get_carry, get_borrow}

-- For two words, the carry that the code computes for ADD is bit 31 of their sum where their sign
-- bits agree, and the sign bit of the first word where they differ; and the borrow that it computes
-- for SUB says whether the first word is below the second one as a signed number.
pub carry_and_borrow_signed :
    (p : ArmCore) (a b : ℕ)
    → a < 2 ^ 32
    → b < 2 ^ 32
    → (get_carry p a b 1
        ≡ (if get_bit a 31 == get_bit b 31 then get_bit (a + b) 31 else get_bit a 31))
      × (get_borrow p a b 1 ≡ int_of (ltb ((a + 2 ^ 31) % 2 ^ 32) ((b + 2 ^ 31) % 2 ^ 32)))
unfolding get_carry get_borrow
carry_and_borrow_signed p a b h k = (ground arith, ground arith)

-- Where the sum of two words below 2 ^ 31 reaches 2 ^ 31, the carry that the code computes for ADD
-- is not the carry out of the sum, and where the first word has its sign bit set and the second one
-- has not, the borrow that it computes for SUB is not that of the two unsigned numbers.
pub carry_and_borrow_wrong :
    (p : ArmCore) (a b x y : ℕ)
    → a < 2 ^ 31
    → b < 2 ^ 31
    → 2 ^ 31 ≤ a + b
    → 2 ^ 31 ≤ x
    → x < 2 ^ 32
    → y < 2 ^ 31
    → (get_carry p a b 1 ≢ (a + b) / 2 ^ 32) × (get_borrow p x y 1 ≢ int_of (ltb x y))
unfolding get_carry get_borrow
carry_and_borrow_wrong p a b x y ha hb s hx kx hy = (λ e. ground arith, λ e. ground arith)
