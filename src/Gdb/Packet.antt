-- ===== src/Gdb/Packet.antt =====
-- The analysis of a request and its dispatch, of gdb_protocol.c.
use projet_s5_prog.Base.{ℕ, ◌+◌, ◌-◌, Bool, List, [], ◌∷◌, ◌++◌}
use projet_s5_prog.Base.{ltb, ◌==◌, if◌then◌else◌, u32, take, drop, get_or, length}
use projet_s5_prog.Base.Scan.{scan_hex, or_keep}
use projet_s5_prog.Util.{Undefined}
use projet_s5_prog.Gdb.State.{Gdb, Served, served, checksum, gdb_send_ack, gdb_send_data}
use projet_s5_prog.Gdb.State.{gdb_require_retransmission}
use projet_s5_prog.Gdb.Handlers

-- the place of `#`, which ends the first loop
abbrev pub hash_place : List ℕ → ℕ
hash_place packet = if ltb 4 (length packet) then length packet - 3 else 1

-- `packet[i] = '\0'`, with the scanner's NUL behind the text
abbrev pub cut_at_hash : List ℕ → List ℕ
cut_at_hash packet =
    take (hash_place packet) packet ++ 0 ∷ (drop (hash_place packet + 1) packet ++ 0 ∷ [])

-- the sum of the text, and the one behind `#`
abbrev pub sum_of : List ℕ → ℕ
sum_of packet = checksum 0 (drop 1 (take (hash_place packet) packet))

abbrev pub given_sum : Undefined → List ℕ → ℕ
given_sum u packet = or_keep (u32 u.local) (scan_hex (drop (hash_place packet + 1) packet))

module _ (u : Undefined) (host target : Bool) (fuel : ℕ) where
  -- `handler[index](gdb, packet+2)`; the table is that of `gdb_init`, null where no test holds.
  unfoldable pub handle : Gdb → ℕ → List ℕ → Served
  handle gdb index data' =
      if index == b'c'
      then Handlers.cont u fuel gdb
      else if index == b'k'
      then Handlers.kill_request gdb
      else if index == b'q'
      then Handlers.query gdb data'
      else if index == b'g'
      then Handlers.read_general_registers host target gdb
      else if index == b'm'
      then Handlers.read_memory u gdb data'
      else if index == b'p'
      then Handlers.read_register host target gdb data'
      else if index == b'?'
      then Handlers.reason gdb
      else if index == b'H'
      then Handlers.set_thread gdb data'
      else if index == b's'
      then Handlers.step u gdb
      else if index == b'G'
      then Handlers.write_general_registers u host target gdb data'
      else if index == b'X'
      then Handlers.write_memory_binary u gdb data'
      else if index == b'P'
      then Handlers.write_register u host target gdb data'
      else gdb_send_data gdb []

  -- `packet` has the length that the scanner passes.
  unfoldable pub gdb_packet_analysis : Gdb → List ℕ → Served
  gdb_packet_analysis gdb packet =
      let cut = cut_at_hash packet in
      if sum_of packet == given_sum u packet
      then handle (gdb_send_ack gdb) (get_or 0 cut 1) (drop 2 cut)
      else served (gdb_require_retransmission gdb)
