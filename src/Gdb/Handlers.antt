-- ===== src/Gdb/Handlers.antt =====
-- The handlers of gdb_protocol.c, one for each request. `data'` is the buffer from the second letter
-- of the request on, past the NUL that ends the text; beyond the buffer a read finds `local`.
-- `trace_disable`, `trace_enable` and `trace_arm_state` only steer the printing, and are left out.
use projet_s5_prog.Base.{ℕ, zero, suc, ◌+◌, ◌-◌, ◌*◌, ◌^◌, bit_and, bit_xor}
use projet_s5_prog.Base.{Bool, true, ◌&&◌, ◌||◌, List, [], ◌∷◌, ◌++◌, Option, none, some}
use projet_s5_prog.Base.{ltb, ◌==◌, if◌then◌else◌, u8, u32, add32, sub32, codes, take, drop, get_or}
use projet_s5_prog.Base.{c_string, strcmp, is_eq, index}
use projet_s5_prog.Base.Scan.{two_hex, scan_hex, or_keep, atoi}
use projet_s5_prog.Util.{Undefined}
use projet_s5_prog.Memory.{memory_get_size}
use projet_s5_prog.Core.{ArmCore, arm_read_register, arm_write_register, arm_read_cpsr}
use projet_s5_prog.Core.{arm_write_cpsr, arm_read_word, arm_read_byte, arm_write_byte}
use projet_s5_prog.Branch.{Outcome, ran, exited}
use projet_s5_prog.Instruction.{arm_step}
use projet_s5_prog.Gdb.Number.{read_uint32, write_uint32}
use projet_s5_prog.Gdb.State.{Gdb, Served, served, aborted, faulted, running, gdb_send_buffer}
use projet_s5_prog.Gdb.State.{gdb_send_data, gdb_send_stop_reason}

-- whether the word at the program counter is the debugger's breakpoint
abbrev pub next_instruction : ArmCore → ℕ
next_instruction p = (arm_read_word p (sub32 (arm_read_register p 15) 4)).1

abbrev pub at_breakpoint : ArmCore → Bool
at_breakpoint p = bit_and (next_instruction p) 0xFFF0_00F0 == 0xE7F0_00F0

-- `arm_step`, and what follows it in the core that it leaves
abbrev pub after_step : Outcome → Gdb → (Gdb → Served) → Served
after_step (ran code p) gdb next = next (record gdb { arm = p; target_exception = code })
after_step (exited status) gdb next = Served.exited status

-- `shutdown(gdb->fd, SHUT_WR)`. The next `Rio_writen` of the program fails and ends it; here `sent`
-- goes on, and what stands in it behind this request was not sent.
unfoldable pub kill_request : Gdb → Served
kill_request gdb = served (record gdb { closed = true })

-- the tests of `query`: `strcmp` and `strncmp` of the text
abbrev pub is_text : List ℕ → List ℕ → Bool
is_text data' text = is_eq (strcmp (c_string data') text)

abbrev pub starts_with : ℕ → List ℕ → List ℕ → Bool
starts_with n data' text = is_eq (strcmp (take n (c_string data')) text)

unfoldable pub query : Gdb → List ℕ → Served
query gdb data' =
    if is_text data' (codes "Offsets")
    then gdb_send_data gdb (codes "Text=0;Data=0;Bss=0")
    else if starts_with 9 data' (codes "Supported")
    then gdb_send_data gdb (codes "PacketSize=400")
    else if is_text data' (codes "TStatus")
    then gdb_send_data gdb (codes "T0;tnotrun:0")
    else if is_text data' (codes "Symbol::")
    then gdb_send_data gdb []
    else gdb_send_data gdb []

unfoldable pub set_thread : Gdb → List ℕ → Served
set_thread gdb data' =
    let type = get_or 0 data' 0 in
    let value = atoi (drop 1 data') in
    if (type == b'c' || type == b'g') && (value == 0 || value == 2 ^ 32 - 1)
    then gdb_send_data gdb (codes "OK")
    else gdb_send_data gdb (codes "E01")

unfoldable pub reason : Gdb → Served
reason gdb = gdb_send_stop_reason gdb

-- `sscanf(data, "%x,%x", &address, &size)`; `address`, `size` and the `value` below are three local
-- variables.
abbrev pub second_number : ℕ → Option (ℕ × List ℕ) → ℕ
second_number old none = old
second_number old (some (v, [])) = old
second_number old (some (v, c ∷ s)) = if c == b',' then or_keep old (scan_hex s) else old

unfoldable pub scan_two : Undefined → List ℕ → ℕ × ℕ
scan_two u data' =
    let first = scan_hex data' in
    (or_keep (u32 u.second_local) first, second_number (u32 u.third_local) first)

-- `while (size-- && (memory_read_byte(...) != -1))`: the codes are 0 and 1, and `value` keeps what it
-- held where nothing is read.
unfoldable pub memory_digits : ArmCore → ℕ → ℕ → ℕ → List ℕ
memory_digits p zero address value = []
memory_digits p (suc size) address value =
    let (code, value') = arm_read_byte p address value in
    let rest = memory_digits p size (add32 address 1) value' in
    if code == 2 ^ 32 - 1 then [] else two_hex value' ++ rest

-- the bytes behind `:`, with `}` before a byte that is sent with its bit 5 flipped
abbrev pub is_escaped : ℕ → List ℕ → Bool
is_escaped old content = get_or old content 0 == 0x7D

abbrev pub sent_value : ℕ → List ℕ → ℕ
sent_value old content =
    if is_escaped old content
    then u8 (bit_xor (get_or old content 1) 0x20)
    else u8 (get_or old content 0)

unfoldable pub write_bytes_of : ℕ → ℕ → ℕ → List ℕ → Bool → ArmCore → Bool × ArmCore
write_bytes_of old zero address content write_ok p = (write_ok, p)
write_bytes_of old (suc left) address content write_ok p =
    let (code, p') = arm_write_byte p address (sent_value old content) in
    let content' = drop (if is_escaped old content then 2 else 1) content in
    let rest = write_bytes_of old left (add32 address 1) content' (code == 0) p' in
    if write_ok then rest else (write_ok, p)

-- from the `:` on; without one, `index` returns a null pointer
unfoldable pub write_content : ℕ → Gdb → ℕ → ℕ → Option (List ℕ) → Served
write_content old gdb address size none = faulted
write_content old gdb address size (some content) =
    let write_ok = ltb address (memory_get_size gdb.arm.mem) in
    let (ok, p) = write_bytes_of old size address (drop 1 content) write_ok gdb.arm in
    let gdb' : Gdb = record gdb { arm = p } in
    if ok then gdb_send_data gdb' (codes "OK") else gdb_send_data gdb' (codes "E02")

module _ (u : Undefined) where
  unfoldable pub step : Gdb → Served
  step gdb = after_step (arm_step u gdb.arm) gdb gdb_send_stop_reason

  -- the loop of `cont`, on fuel
  unfoldable pub cont : ℕ → Gdb → Served
  cont zero gdb = running
  cont (suc fuel) gdb =
      if at_breakpoint gdb.arm
      then gdb_send_stop_reason gdb
      else after_step (arm_step u gdb.arm) gdb (cont fuel)

  unfoldable pub read_memory : Gdb → List ℕ → Served
  read_memory gdb data' =
      let (address, size) = scan_two u data' in
      gdb_send_buffer gdb (memory_digits gdb.arm size address (u8 u.local))

  unfoldable pub write_memory_binary : Gdb → List ℕ → Served
  write_memory_binary gdb data' =
      let (address, size) = scan_two u data' in
      write_content (u8 u.local) gdb address size (index b':' data')

-- `sprintf(position, "xxxxxxxx")`, again and again
unfoldable pub unavailable : ℕ → List ℕ
unavailable zero = []
unavailable (suc left) = codes "xxxxxxxx" ++ unavailable left

module _ (host target : Bool) where
  -- R0 to R14
  unfoldable pub general_digits : ArmCore → ℕ → ℕ → List ℕ
  general_digits p zero i = []
  general_digits p (suc left) i =
      write_uint32 host target (arm_read_register p i) ++ general_digits p left (i + 1)

  unfoldable pub read_general_registers : Gdb → Served
  read_general_registers gdb = gdb_send_buffer gdb (
      general_digits gdb.arm 15 0
      ++ (write_uint32 host target (sub32 (arm_read_register gdb.arm 15) 4)
          ++ (unavailable 24
              ++ (unavailable 1 ++ write_uint32 host target (arm_read_cpsr gdb.arm)))))

  -- `assert(reg < 16)`
  unfoldable pub read_register : Gdb → List ℕ → Served
  read_register gdb data' =
      let reg = atoi data' in
      if ltb reg 16
      then gdb_send_buffer gdb (
          write_uint32 host target
            (sub32 (arm_read_register gdb.arm reg) (if reg == 15 then 4 else 0)))
      else aborted

module _ (u : Undefined) (host target : Bool) where
  unfoldable pub write_general : ℕ → ℕ → List ℕ → ArmCore → ArmCore
  write_general zero i position p = p
  write_general (suc left) i position p =
      write_general left (i + 1) (drop 8 position)
        (arm_write_register p i (read_uint32 u host target position))

  -- 16 registers, 24 words and a word that are skipped, the CPSR
  unfoldable pub write_general_registers : Gdb → List ℕ → Served
  write_general_registers gdb data' =
      let p = write_general 16 0 data' gdb.arm in
      let cpsr = read_uint32 u host target (drop (8 * 41) data') in
      gdb_send_data (record gdb { arm = arm_write_cpsr p cpsr }) (codes "OK")

  -- from the `=` on, and `assert(reg < 16)`
  unfoldable pub write_number : Gdb → ℕ → Option (List ℕ) → Served
  write_number gdb reg none = faulted
  write_number gdb reg (some rest) =
      let value = read_uint32 u host target (drop 1 rest) in
      if ltb reg 16
      then gdb_send_data (record gdb { arm = arm_write_register gdb.arm reg value }) (codes "OK")
      else aborted

  unfoldable pub write_register : Gdb → List ℕ → Served
  write_register gdb data' =
      let reg = or_keep (u32 u.local) (scan_hex data') in write_number gdb reg (index b'=' data')
