-- ===== src/Registers/Slot.antt =====
-- The word that a register of a mode stands in: both accesses of registers.c reach the same one.
use projet_s5_prog.Base.{ℕ, ◌+◌, ◌-◌, ◌*◌, ◌≤◌, ◌<◌, ◌≡◌, arith, ltb}
use projet_s5_prog.Base.{◌==◌, if◌then◌else◌}
use projet_s5_prog.Registers.{Registers, store_word, get_mode, read_register, write_register}
use projet_s5_prog.Registers.{read_usr_register, write_usr_register}

-- 1 for R8 to R12 of the fast interrupt mode
unfoldable pub fiq_shift : ℕ → ℕ
fiq_shift mode = if mode == 17 then 1 else 0

-- where R13 of a mode stands, and how far behind it R14
unfoldable pub stack_slot : ℕ → ℕ
stack_slot mode =
    if mode == 17
    then 23
    else if mode == 18
    then 22
    else if mode == 19
    then 19
    else if mode == 23
    then 20
    else if mode == 27
    then 21
    else 18

unfoldable pub link_step : ℕ → ℕ
link_step mode =
    if mode == 17
    then 2
    else if mode == 18
    then 2
    else if mode == 19
    then 2
    else if mode == 23
    then 2
    else if mode == 27
    then 2
    else 6

unfoldable pub slot : ℕ → ℕ → ℕ
slot mode reg =
    if ltb reg 8
    then reg
    else if ltb reg 13
    then 8 + (reg - 8) * 2 + fiq_shift mode
    else if reg == 13
    then stack_slot mode
    else if reg == 14
    then stack_slot mode + link_step mode
    else 30

pub fiq_shift_bound : (mode : ℕ) → fiq_shift mode ≤ 1
unfolding fiq_shift
fiq_shift_bound mode = ground arith

pub stack_bounds :
    (mode : ℕ)
    → (18 ≤ stack_slot mode) × (2 ≤ link_step mode) × (stack_slot mode + link_step mode ≤ 25)
unfolding stack_slot link_step
stack_bounds mode = ground arith

pub slot-lt : (mode reg : ℕ) → slot mode reg < 31
unfolding slot
slot-lt mode reg = ground (arith, fiq_shift_bound mode, stack_bounds mode)

-- Different registers of one mode stand in different words.
pub slot_injective : (mode a b : ℕ) → a < 16 → b < 16 → slot mode a ≡ slot mode b → a ≡ b
unfolding slot
slot_injective mode a b ha hb e = ground (arith, fiq_shift_bound mode, stack_bounds mode)

pub read_register-slot : (r : Registers) (reg : ℕ) → read_register r reg ≡ r (slot (get_mode r) reg)
unfolding slot read_register fiq_shift stack_slot link_step
read_register-slot r reg = ground arith

pub write_register-slot :
    (r : Registers) (reg value : ℕ)
    → write_register r reg value ≡ store_word r (slot (get_mode r) reg) value
unfolding slot write_register fiq_shift stack_slot link_step
write_register-slot r reg value = ground arith

pub read_usr_register-slot : (r : Registers) (reg : ℕ) → read_usr_register r reg ≡ r (slot 16 reg)
unfolding slot read_usr_register fiq_shift stack_slot link_step
read_usr_register-slot r reg = ground arith

pub write_usr_register-slot :
    (r : Registers) (reg value : ℕ)
    → write_usr_register r reg value ≡ store_word r (slot 16 reg) value
unfolding slot write_usr_register fiq_shift stack_slot link_step
write_usr_register-slot r reg value = ground arith
