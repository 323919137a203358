-- ===== src/Registers.antt =====
-- registers.c: the 37 words that hold the banked registers, the CPSR and the five SPSRs.
-- The array is a function of the index. Every function takes the index arithmetic from the source;
-- register numbers are `uint8_t`, so that the tests `reg < 0` never hold.
pub mod Slot
pub mod Banks
pub mod Aliases
use projet_s5_prog.Base.{ℕ, ◌+◌, ◌-◌, ◌*◌, ◌%◌, ◌^◌, ltb, ◌==◌, if◌then◌else◌}

-- `struct registers_data`, the array that `registers_create` allocates
abbrev pub Registers : Type 0
Registers = ℕ → ℕ

-- `calloc` clears the words.
unfoldable pub registers_create : Registers
registers_create = λ _. 0

-- `(r + i)->reg_data = value`
abbrev pub store_word : Registers → ℕ → ℕ → Registers
store_word r i value k = if k == i then value else r k

unfoldable pub get_mode : Registers → ℕ
get_mode r = r 31 % 2 ^ 5

unfoldable pub current_mode_has_spsr : Registers → ℕ
unfolding get_mode
current_mode_has_spsr r =
    let mode = get_mode r in if mode == 16 then 0 else if mode == 31 then 0 else 1

unfoldable pub in_a_privileged_mode : Registers → ℕ
unfolding get_mode
in_a_privileged_mode r = let mode = get_mode r in if mode == 16 then 0 else 1

unfoldable pub read_register : Registers → ℕ → ℕ
unfolding get_mode
read_register r reg =
    let mode = get_mode r in
    if ltb reg 8
    then r reg
    else if ltb reg 13
    then (if mode == 17 then r (9 + (reg - 8) * 2) else r (8 + (reg - 8) * 2))
    else if ltb reg 15
    then (if mode == 17
        then r (23 + (reg - 13) * 2)
        else if mode == 18
        then r (22 + (reg - 13) * 2)
        else if mode == 19
        then r (19 + (reg - 13) * 2)
        else if mode == 23
        then r (20 + (reg - 13) * 2)
        else if mode == 27
        then r (21 + (reg - 13) * 2)
        else r (18 + (reg - 13) * 6))
    else r 30

unfoldable pub read_usr_register : Registers → ℕ → ℕ
read_usr_register r reg =
    if ltb reg 8
    then r reg
    else if ltb reg 13
    then r (8 + (reg - 8) * 2)
    else if ltb reg 15
    then r (18 + (reg - 13) * 6)
    else r 30

unfoldable pub read_cpsr : Registers → ℕ
read_cpsr r = r 31

-- `return -1` of a `uint32_t`
unfoldable pub read_spsr : Registers → ℕ
unfolding get_mode
read_spsr r =
    let mode = get_mode r in
    if mode == 17
    then r 36
    else if mode == 18
    then r 35
    else if mode == 19
    then r 32
    else if mode == 23
    then r 33
    else if mode == 27
    then r 34
    else 0xFFFF_FFFF

unfoldable pub write_register : Registers → ℕ → ℕ → Registers
unfolding get_mode
write_register r reg value =
    let mode = get_mode r in
    if ltb reg 8
    then store_word r reg value
    else if ltb reg 13
    then (if mode == 17
        then store_word r (9 + (reg - 8) * 2) value
        else store_word r (8 + (reg - 8) * 2) value)
    else if ltb reg 15
    then (if mode == 17
        then store_word r (23 + (reg - 13) * 2) value
        else if mode == 18
        then store_word r (22 + (reg - 13) * 2) value
        else if mode == 19
        then store_word r (19 + (reg - 13) * 2) value
        else if mode == 23
        then store_word r (20 + (reg - 13) * 2) value
        else if mode == 27
        then store_word r (21 + (reg - 13) * 2) value
        else store_word r (18 + (reg - 13) * 6) value)
    else store_word r 30 value

unfoldable pub write_usr_register : Registers → ℕ → ℕ → Registers
write_usr_register r reg value =
    if ltb reg 8
    then store_word r reg value
    else if ltb reg 13
    then store_word r (8 + (reg - 8) * 2) value
    else if ltb reg 15
    then store_word r (18 + (reg - 13) * 6) value
    else store_word r 30 value

unfoldable pub write_cpsr : Registers → ℕ → Registers
write_cpsr r value = store_word r 31 value

unfoldable pub write_spsr : Registers → ℕ → Registers
unfolding get_mode
write_spsr r value =
    let mode = get_mode r in
    if mode == 17
    then store_word r 36 value
    else if mode == 18
    then store_word r 35 value
    else if mode == 19
    then store_word r 32 value
    else if mode == 23
    then store_word r 33 value
    else if mode == 27
    then store_word r 34 value
    else r
