-- ===== src/Gdb/State.antt =====
-- The state of gdb_protocol.c, and how it sends an answer.
-- The `mem` of the state is the memory of `arm`: `main` hands the same pointer to both. The lock and
-- the debug messages are left out.
use projet_s5_prog.Base.{ℕ, ◌+◌, ◌%◌, ◌^◌, Bool, false, List, [], ◌∷◌, ◌++◌}
use projet_s5_prog.Base.{◌-◌, ◌&&◌, ltb, ◌==◌, ◌||◌, if◌then◌else◌, codes, length, c_string}
use projet_s5_prog.Base.Scan.{two_hex}
use projet_s5_prog.Core.{ArmCore}
use projet_s5_prog.Exception.{undefined_instruction}

-- `struct gdb_protocol_data`: `packet` is its text up to `len`, `sent` what was written to `fd`, and
-- `closed` whether the sending side was shut down.
pub record Gdb : Type 0 where
  pub arm : ArmCore
  pub target_exception : ℕ
  pub packet : List ℕ
  pub sent : List (List ℕ)
  pub closed : Bool

-- How a request ends: served, by `exit`, by a failing `assert`, in behaviour that C leaves
-- undefined (a write beyond `packet`, a use of a null pointer), or not within the fuel.
pub data Served : Type 0 where
  served : Gdb → Served
  exited : ℕ → Served
  aborted faulted running : Served

-- `MAX_PACKET_SIZE`, and the two exceptions beside those of Exception that stop reasons name
abbrev pub max_packet_size : ℕ
max_packet_size = 1024

abbrev pub prefetch_abort : ℕ
prefetch_abort = 4

abbrev pub data_abort : ℕ
data_abort = 5

unfoldable pub gdb_init_data : ArmCore → Gdb
gdb_init_data arm = record {
  arm = arm;
  target_exception = 0;
  packet = [];
  sent = [];
  closed = false;
}

-- `Rio_writen(gdb->fd, data, length)`, taken to succeed: on a connection that the debugger has lost,
-- or whose sending side `kill_request` has shut down, it ends the program.
abbrev pub transmit : Gdb → List ℕ → Gdb
transmit gdb bytes = record gdb { sent = gdb.sent ++ (bytes ∷ []) }

unfoldable pub gdb_transmit_packet : Gdb → Gdb
gdb_transmit_packet gdb = transmit gdb gdb.packet

unfoldable pub gdb_send_ack : Gdb → Gdb
gdb_send_ack gdb = transmit gdb (b'+' ∷ [])

unfoldable pub gdb_require_retransmission : Gdb → Gdb
gdb_require_retransmission gdb = transmit gdb (b'-' ∷ [])

-- the sum of the bytes, in an `unsigned char`
unfoldable pub checksum : ℕ → List ℕ → ℕ
checksum check [] = check
checksum check (c ∷ s) = checksum ((check + c) % 2 ^ 8) s

-- `$`, the text, `#` and the two digits of the sum
unfoldable pub framed : List ℕ → List ℕ
framed text = b'$' ∷ (text ++ b'#' ∷ two_hex (checksum 0 text))

-- `buffer` holds the text, up to a NUL; the packet and its own NUL are to fit.
unfoldable pub gdb_send_buffer : Gdb → List ℕ → Served
gdb_send_buffer gdb buffer =
    let packet = framed (c_string buffer) in
    if ltb (length packet) max_packet_size && ltb (length buffer) (max_packet_size - 1)
    then served (gdb_transmit_packet (record gdb { packet = packet }))
    else faulted

unfoldable pub gdb_send_data : Gdb → List ℕ → Served
gdb_send_data gdb data' = gdb_send_buffer gdb data'

unfoldable pub gdb_send_stop_reason : Gdb → Served
gdb_send_stop_reason gdb =
    if gdb.target_exception == undefined_instruction
    then gdb_send_data gdb (codes "S04")
    else if gdb.target_exception == prefetch_abort || gdb.target_exception == data_abort
    then gdb_send_data gdb (codes "S10")
    else gdb_send_data gdb (codes "S05")
