-- ===== src/Gdb/Number.antt =====
-- `read_uint32` and `write_uint32` of gdb_protocol.c, with `is_big_endian` of util.c.
-- `host` says whether the machine that runs the simulator is big-endian, `target` whether
-- `BIG_ENDIAN_SIMULATOR` is defined.
use projet_s5_prog.Base.{ℕ, zero, suc, ◌+◌, ◌-◌, ◌*◌, ◌/◌, ◌%◌, ◌^◌, Bool, List, [], ◌++◌}
use projet_s5_prog.Base.{ltb, ◌==◌, if◌then◌else◌, int_of, u8, u32, add32, drop}
use projet_s5_prog.Base.Scan.{two_hex, scan_width, or_keep}
use projet_s5_prog.Util.{Undefined}

-- the union of four bytes and an integer, in the host's order
abbrev pub byte_of : Bool → ℕ → ℕ → ℕ
byte_of host value i =
    if host then value / 2 ^ (8 * (3 - i)) % 2 ^ 8 else value / 2 ^ (8 * i) % 2 ^ 8

abbrev pub integer_of : Bool → (ℕ → ℕ) → ℕ
integer_of host bytes =
    if host
    then bytes 0 * 2 ^ 24 + bytes 1 * 2 ^ 16 + bytes 2 * 2 ^ 8 + bytes 3
    else bytes 3 * 2 ^ 24 + bytes 2 * 2 ^ 16 + bytes 1 * 2 ^ 8 + bytes 0

unfoldable pub is_big_endian : Bool → ℕ
is_big_endian host = int_of (byte_of host 1 0 == 0)

abbrev pub set_byte : (ℕ → ℕ) → ℕ → ℕ → ℕ → ℕ
set_byte bytes i value k = if k == i then value else bytes k

-- the two loops, `for (; (i<4) && (i>=0); i+=step)` on an unsigned `i`, on fuel
module _ (host : Bool) where
  unfoldable pub write_digits : ℕ → ℕ → ℕ → ℕ → List ℕ
  write_digits zero i step value = []
  write_digits (suc fuel) i step value =
      let rest = write_digits fuel (add32 i step) step value in
      if ltb i 4 then two_hex (byte_of host value i) ++ rest else []

unfoldable pub read_digits : ℕ → ℕ → ℕ → List ℕ → ℕ → (ℕ → ℕ) → ℕ → ℕ
read_digits zero i step data' value bytes = bytes
read_digits (suc fuel) i step data' value bytes =
    let value' = or_keep value (scan_width 2 data') in
    let rest =
      read_digits fuel (add32 i step) step (drop 2 data') value' (set_byte bytes i (u8 value')) in
    if ltb i 4 then rest else bytes

-- `i` and `step`, which counts down by the wrap-around of the unsigned sum
abbrev pub first_index : Bool → Bool → ℕ
first_index host target = if is_big_endian host == int_of target then 0 else 3

abbrev pub index_step : Bool → Bool → ℕ
index_step host target = if is_big_endian host == int_of target then 1 else 2 ^ 32 - 1

-- the text up to the final NUL
unfoldable pub write_uint32 : Bool → Bool → ℕ → List ℕ
write_uint32 host target value =
    write_digits host 5 (first_index host target) (index_step host target) value

-- `value` and the union are not assigned before the loop.
unfoldable pub read_uint32 : Undefined → Bool → Bool → List ℕ → ℕ
read_uint32 u host target data' = integer_of host (
    read_digits 5 (first_index host target) (index_step host target) data' (u32 u.local)
      (λ k. u8 u.local))
