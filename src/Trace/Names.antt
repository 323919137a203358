-- ===== src/Trace/Names.antt =====
-- The names of the modes and the registers of arm_constants.c, and the modes of arm_constants.h.
use projet_s5_prog.Base.{ℕ, List, [], ◌∷◌, ◌++◌, Option, none, some, codes, get_or}

abbrev pub usr : ℕ
usr = 16

abbrev pub fiq : ℕ
fiq = 17

abbrev pub irq : ℕ
irq = 18

abbrev pub svc : ℕ
svc = 19

abbrev pub abt : ℕ
abt = 23

abbrev pub und : ℕ
und = 27

abbrev pub sys : ℕ
sys = 31

-- Modes 0 to 15 have no name.
abbrev unnamed_modes : List (Option (List ℕ))
unnamed_modes =
    none ∷ none ∷ none ∷ none ∷ none ∷ none ∷ none ∷ none ∷ none ∷ none ∷ none ∷ none ∷ none ∷ none
    ∷ none ∷ none ∷ []

abbrev pub arm_mode_names : List (Option (List ℕ))
arm_mode_names =
    unnamed_modes
    ++ (some (codes "USR")
        ∷ some (codes "FIQ")
        ∷ some (codes "IRQ")
        ∷ some (codes "SVC")
        ∷ none
        ∷ none
        ∷ none
        ∷ some (codes "ABT")
        ∷ none
        ∷ none
        ∷ none
        ∷ some (codes "UND")
        ∷ none
        ∷ none
        ∷ none
        ∷ some (codes "SYS")
        ∷ [])

abbrev pub arm_register_names : List (List ℕ)
arm_register_names =
    codes "R00"
    ∷ codes "R01"
    ∷ codes "R02"
    ∷ codes "R03"
    ∷ codes "R04"
    ∷ codes "R05"
    ∷ codes "R06"
    ∷ codes "R07"
    ∷ codes "R08"
    ∷ codes "R09"
    ∷ codes "R10"
    ∷ codes "R11"
    ∷ codes "R12"
    ∷ codes "SP"
    ∷ codes "LR"
    ∷ codes "PC"
    ∷ codes "CPSR"
    ∷ codes "SPSR"
    ∷ []

-- A mode is below 32 and a register below 18 where these are called.
unfoldable pub arm_get_mode_name : ℕ → Option (List ℕ)
arm_get_mode_name mode = get_or none arm_mode_names mode

unfoldable pub arm_get_register_name : ℕ → List ℕ
arm_get_register_name reg = get_or [] arm_register_names reg
