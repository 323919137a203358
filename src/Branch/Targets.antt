-- ===== src/Branch/Targets.antt =====
-- Where the branches go.
use projet_s5_prog.Base.{ℕ, ◌+◌, ◌-◌, ◌*◌, ◌%◌, ◌^◌, ◌≡◌, ◌≢◌, arith, refl}
use projet_s5_prog.Base.{◌==◌, if◌then◌else◌, sub32, true, false, ==_ne}
use projet_s5_prog.Base.Mask.{bit_or_fields_swap}
use projet_s5_prog.Util.{get_bit, get_bits}
use projet_s5_prog.Registers.{write_register}
use projet_s5_prog.Registers.Banks.{read_register-write_register}
use projet_s5_prog.Core.{ArmCore, condition_passed, arm_read_register, arm_write_register}
use projet_s5_prog.Core.Written.{written_register}
use projet_s5_prog.Core.Conditions.{condition_extended}
use projet_s5_prog.Branch.{calc_bl_target_address, branch_first, branch_exchange, blx1_procedure}
use projet_s5_prog.Branch.{arm_branch}

-- the signed 24-bit offset of a branch, in words, as a 32-bit number
abbrev pub signed_offset : ℕ → ℕ
signed_offset ins = if get_bit ins 23 == 1 then ins % 2 ^ 24 + (2 ^ 32 - 2 ^ 24) else ins % 2 ^ 24

bl_target : (ins : ℕ) → calc_bl_target_address ins false ≡ signed_offset ins * 4 % 2 ^ 32
unfolding calc_bl_target_address
bl_target ins = ground (arith, bit_or_fields_swap 24 0xFF (ins % 2 ^ 24) (omega arith))

forward_target :
    (ins : ℕ)
    → get_bit ins 23 ≡ 0
    → calc_bl_target_address ins true ≡ signed_offset ins * 4 % 2 ^ 32
unfolding calc_bl_target_address
forward_target ins forward = ground arith

-- the two values of `conditionPassed` but 0 follow from the condition field
passes_fifteen : (p : ArmCore) (ins : ℕ) → get_bits ins 31 28 ≢ 15 → condition_passed p ins ≢ 15
unfolding condition_passed
passes_fifteen p ins field = ground arith

written_pc : (p : ArmCore) (v : ℕ) → (arm_write_register p 15 v).reg 30 ≡ v
unfolding arm_write_register write_register
written_pc p v = refl

link_kept :
    (p : ArmCore) (v : ℕ)
    → arm_read_register (arm_write_register p 15 v) 14 ≡ arm_read_register p 14
unfolding arm_write_register arm_read_register
link_kept p v = read_register-write_register p.reg 15 14 v (omega arith) (omega arith)

-- B and BL, where the condition holds and its field is not 15: the program counter becomes the one
-- that the instruction reads plus four times its signed offset, modulo 2 ^ 32.
pub arm_branch_target :
    (p : ArmCore) (ins : ℕ)
    → get_bits ins 27 25 ≡ 5
    → condition_passed p ins ≢ 0
    → get_bits ins 31 28 ≢ 15
    → (arm_branch p ins).1.reg 30 ≡ (arm_read_register p 15 + signed_offset ins * 4) % 2 ^ 32
unfolding arm_branch blx1_procedure branch_first branch_exchange
arm_branch_target p ins class passed field =
    simp (class, ==_ne _ 0 passed, no_exchange, bl_target, written_pc) (omega arith)
  where
    no_exchange : (q : ArmCore) → (condition_passed q ins == 15) ≡ false
    no_exchange q = ==_ne _ 15 (passes_fifteen q ins field)

-- The link of B and BL under the same conditions: BL leaves the address of the instruction after it
-- in R14 of the current mode, and B leaves R14 alone.
arm_branch_link :
    (p : ArmCore) (ins : ℕ)
    → get_bits ins 27 25 ≡ 5
    → condition_passed p ins ≢ 0
    → get_bits ins 31 28 ≢ 15
    → arm_read_register (arm_branch p ins).1 14
      ≡ (if get_bit ins 24 == 1 then sub32 (arm_read_register p 15) 4 else arm_read_register p 14)
unfolding arm_branch blx1_procedure branch_first branch_exchange
arm_branch_link p ins class passed field =
    simp (class, ==_ne _ 0 passed, no_exchange, link_kept)
      (ground (
        arith,
        written_register p 14 (sub32 (arm_read_register p 15) 4) (omega arith) (omega arith),
      ))
  where
    no_exchange : (q : ArmCore) → (condition_passed q ins == 15) ≡ false
    no_exchange q = ==_ne _ 15 (passes_fifteen q ins field)

-- BLX (1), the branch with condition field 15 (`get_bit ins 24` is its H bit) and an offset that
-- is not negative: the program counter moves by twice the offset, since both `if`s of
-- `blx1_procedure` add it.
pub blx1_adds_twice :
    (p : ArmCore) (ins : ℕ)
    → get_bits ins 27 25 ≡ 5
    → get_bits ins 31 28 ≡ 15
    → get_bit ins 23 ≡ 0
    → (arm_branch p ins).1.reg 30 ≡ (arm_read_register p 15 + 2 * (signed_offset ins * 4)) % 2 ^ 32
unfolding arm_branch blx1_procedure branch_first branch_exchange
blx1_adds_twice p ins class field forward =
    simp (class, exchange, exchange_target, written_pc) (omega arith)
  where
    exchange : (q : ArmCore) → condition_passed q ins ≡ 15
    exchange q = condition_extended q ins field

    exchange_target : calc_bl_target_address ins true ≡ signed_offset ins * 4 % 2 ^ 32
    exchange_target = forward_target ins forward
