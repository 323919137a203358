-- ===== src/DataProcessing/Overflow.antt =====
-- The overflow flag of `calcs_procedure`.
use projet_s5_prog.Base.{ℕ, ◌%◌, ◌^◌, ◌≡◌, arith}
use projet_s5_prog.DataProcessing.{get_overflow_flag}

-- `get_overflow_flag` depends on the lowest bytes of its operands and of the result alone, and so
-- not on the sign bits of the words.
overflow_flag_low_bytes :
    (a b r : ℕ) → get_overflow_flag a b r ≡ get_overflow_flag (a % 2 ^ 8) (b % 2 ^ 8) (r % 2 ^ 8)
unfolding get_overflow_flag
overflow_flag_low_bytes a b r = ground arith
