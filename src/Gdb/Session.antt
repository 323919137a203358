-- ===== src/Gdb/Session.antt =====
-- A session: what `gdb_listener` and `irq_listener` of arm_simulator.c do to the processor, one
-- after the other under the lock.
use projet_s5_prog.Base.{ℕ, ◌<◌, ◌≡◌, subst, Bool, true, false, List, if◌then◌else◌}
use projet_s5_prog.Util.{Undefined}
use projet_s5_prog.Memory.{memory_create}
use projet_s5_prog.Exception.{arm_exception, arm_create}
use projet_s5_prog.Gdb.State.{Gdb, Served, served, gdb_init_data, gdb_transmit_packet}
use projet_s5_prog.Gdb.State.{gdb_require_retransmission}
use projet_s5_prog.Gdb.Packet.{gdb_packet_analysis}
use projet_s5_prog.Gdb.Safety.{Live, live, Safe, analysis-Safe}
use projet_s5_prog.Invariant.{IsValid}
use projet_s5_prog.Invariant.Run.{exception-IsValid, created-IsValid}

-- `arm_exception(shared->arm, irq)` on the core that the debugger drives
unfoldable pub interrupt : Gdb → ℕ → Gdb
interrupt gdb irq = record gdb { arm = arm_exception gdb.arm irq }

-- the memory and the core of `main`, and the state of the scanner for it
unfoldable pub simulator_start : ℕ → (ℕ → ℕ) → Bool → Gdb
simulator_start cycles found big =
    gdb_init_data (arm_create cycles (memory_create found 0x20000 (if big then 1 else 0)))

-- the sequences of requests, retransmissions and interrupts, in any order
data Session (u : Undefined) (host target : Bool) : Gdb → Gdb → Type 0 where
  over : {g : Gdb} → Session u host target g g
  request :
      {g h k : Gdb} (fuel : ℕ) (packet : List ℕ)
      → gdb_packet_analysis u host target fuel g packet ≡ served h
      → Session u host target h k
      → Session u host target g k
  retransmit :
      {g k : Gdb} → Session u host target (gdb_transmit_packet g) k → Session u host target g k
  refuse :
      {g k : Gdb}
      → Session u host target (gdb_require_retransmission g) k
      → Session u host target g k
  irq :
      {g k : Gdb} (byte : ℕ)
      → Session u host target (interrupt g byte) k
      → Session u host target g k

served-Live : {n e : ℕ} {g : Gdb} (r : Served) → Safe n e r → r ≡ served g → Live n e g.arm
served-Live {n = n} {e = e} r h same = subst (Safe n e) same h

Session-Live :
    (u : Undefined) (host target : Bool) {n e : ℕ} {g k : Gdb}
    → Live n e g.arm
    → Session u host target g k
    → Live n e k.arm
unfolding gdb_transmit_packet gdb_require_retransmission interrupt
Session-Live u host target h over = h
Session-Live u host target {g = g} h (request fuel packet same rest) =
    Session-Live u host target (served-Live _ (analysis-Safe u host target fuel g packet h) same)
      rest
Session-Live u host target h (retransmit rest) = Session-Live u host target h rest
Session-Live u host target h (refuse rest) = Session-Live u host target h rest
Session-Live u host target h (irq byte rest) =
    Session-Live u host target (live (exception-IsValid byte h)) rest

-- Whatever a debugger sends and whatever interrupts arrive, in any order, after the start of the
-- simulator: as long as every request is served, the processor's registers are 32-bit words, its
-- memory cells are bytes, and its memory has 0x20000 bytes and the byte order it was created with.
session-IsValid :
    (u : Undefined) (host target big : Bool) (cycles : ℕ) (found : ℕ → ℕ) (k : Gdb)
    → ((a : ℕ) → found a < 256)
    → Session u host target (simulator_start cycles found big) k
    → IsValid k.arm.cycle_count 0x20000 (if big then 1 else 0) k.arm
unfolding simulator_start gdb_init_data
session-IsValid u host target true cycles found k bytes run =
    Session-Live u host target (live (created-IsValid cycles found 0x20000 1 bytes)) run
session-IsValid u host target false cycles found k bytes run =
    Session-Live u host target (live (created-IsValid cycles found 0x20000 0 bytes)) run
