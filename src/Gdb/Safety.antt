-- ===== src/Gdb/Safety.antt =====
-- The invariant across the handlers of gdb_protocol.c.
use projet_s5_prog.Base.{ℕ, zero, suc, ◌-◌, ◌*◌, ◌^◌, ◌<◌, arith, subst, sym}
use projet_s5_prog.Base.{Bool, ◌&&◌, ◌||◌, List, [], Option, none, some}
use projet_s5_prog.Base.{ltb, ◌==◌, if_both, u32, drop, get_or, codes, index}
use projet_s5_prog.Base.{add32, length, c_string}
use projet_s5_prog.Base.Scan.{scan_width, or_keep, atoi}
use projet_s5_prog.Util.{Undefined}
use projet_s5_prog.Memory.{memory_get_size}
use projet_s5_prog.Core.{ArmCore}
use projet_s5_prog.Branch.{Outcome, ran, exited}
use projet_s5_prog.Gdb.Number.{read_uint32, read_digits, first_index, index_step, integer_of}
use projet_s5_prog.Gdb.State.{Gdb, Served, served}
use projet_s5_prog.Gdb.State.{gdb_send_buffer, gdb_send_data, gdb_send_stop_reason, gdb_send_ack}
use projet_s5_prog.Gdb.State.{
  gdb_require_retransmission, gdb_transmit_packet, max_packet_size, framed,
}
use projet_s5_prog.Gdb.Handlers
use projet_s5_prog.Gdb.Packet.{handle, gdb_packet_analysis, sum_of, given_sum, cut_at_hash}
use projet_s5_prog.Invariant.{IsValid}
use projet_s5_prog.Invariant.Access.{write_register-IsValid, write_cpsr-IsValid, write_byte-IsValid}
use projet_s5_prog.Invariant.Run.{Sound, arm_step-Sound}

-- the invariant at the core's own cycle count
abbrev pub Live : ℕ → ℕ → ArmCore → Type 0
Live n e p = IsValid p.cycle_count n e p

pub live : {t n e : ℕ} {p : ArmCore} → IsValid t n e p → Live n e p
live {n = n} {e = e} {p = p} h = subst (λ c. IsValid c n e p) (sym h.counted) h

-- a request that is served leaves a valid core
abbrev pub Safe : ℕ → ℕ → Served → Type 0
Safe n e (served gdb) = Live n e gdb.arm
Safe n e _ = Unit

module _ {n e : ℕ} where
  send_buffer-Safe : (gdb : Gdb) (s : List ℕ) → Live n e gdb.arm → Safe n e (gdb_send_buffer gdb s)
  unfolding gdb_send_buffer gdb_transmit_packet
  send_buffer-Safe gdb s h =
      if_both (Safe n e)
        (ltb (length (framed (c_string s))) max_packet_size && ltb (length s) (max_packet_size - 1))
        h tt

  send_data-Safe : (gdb : Gdb) (s : List ℕ) → Live n e gdb.arm → Safe n e (gdb_send_data gdb s)
  unfolding gdb_send_data
  send_data-Safe gdb s h = send_buffer-Safe gdb s h

  stop_reason-Safe : (gdb : Gdb) → Live n e gdb.arm → Safe n e (gdb_send_stop_reason gdb)
  unfolding gdb_send_stop_reason
  stop_reason-Safe gdb h =
      if_both (Safe n e) (gdb.target_exception == 2) (send_data-Safe gdb (codes "S04") h) (
        if_both (Safe n e) (gdb.target_exception == 4 || gdb.target_exception == 5)
          (send_data-Safe gdb (codes "S10") h) (send_data-Safe gdb (codes "S05") h))

  query-Safe : (gdb : Gdb) (s : List ℕ) → Live n e gdb.arm → Safe n e (Handlers.query gdb s)
  unfolding Handlers.query
  query-Safe gdb s h =
      if_both (Safe n e) (Handlers.is_text s (codes "Offsets")) (send_data-Safe gdb _ h) (
        if_both (Safe n e) (Handlers.starts_with 9 s (codes "Supported")) (send_data-Safe gdb _ h) (
          if_both (Safe n e) (Handlers.is_text s (codes "TStatus")) (send_data-Safe gdb _ h) (
            if_both (Safe n e) (Handlers.is_text s (codes "Symbol::")) (send_data-Safe gdb _ h)
              (send_data-Safe gdb _ h))))

  set_thread-Safe :
      (gdb : Gdb) (s : List ℕ) → Live n e gdb.arm → Safe n e (Handlers.set_thread gdb s)
  unfolding Handlers.set_thread
  set_thread-Safe gdb s h =
      if_both (Safe n e)
        ((get_or 0 s 0 == 99 || get_or 0 s 0 == 103)
          && (atoi (drop 1 s) == 0 || atoi (drop 1 s) == 2 ^ 32 - 1))
        (send_data-Safe gdb _ h) (send_data-Safe gdb _ h)

  after_step-Safe :
      (t : ℕ) (o : Outcome) (gdb : Gdb) (next : Gdb → Served)
      → Sound t n e o
      → ((g : Gdb) → Live n e g.arm → Safe n e (next g))
      → Safe n e (Handlers.after_step o gdb next)
  after_step-Safe t (ran code p) gdb next h keep = keep _ (live h)
  after_step-Safe t (exited status) gdb next h keep = tt

  write_bytes-IsValid :
      (t old left address : ℕ) (content : List ℕ) (ok : Bool) (p : ArmCore)
      → IsValid t n e p
      → IsValid t n e (Handlers.write_bytes_of old left address content ok p).1
  unfolding Handlers.write_bytes_of
  write_bytes-IsValid t old zero address content ok p h = h
  write_bytes-IsValid t old (suc left) address content ok p h =
      if_both (λ (r : Bool × ArmCore). IsValid t n e r.1) ok
        (write_bytes-IsValid t old left _ _ _ _ (
          write_byte-IsValid h address (Handlers.sent_value old content)
            (if_both (λ x. x < 256) (Handlers.is_escaped old content) (omega arith) (omega arith))))
        h

  write_content-Safe :
      (old : ℕ) (gdb : Gdb) (address size : ℕ) (c : Option (List ℕ))
      → Live n e gdb.arm
      → Safe n e (Handlers.write_content old gdb address size c)
  unfolding Handlers.write_content
  write_content-Safe old gdb address size none h = tt
  write_content-Safe old gdb address size (some content) h =
      if_both (Safe n e) written.0 (send_data-Safe _ (codes "OK") valid)
        (send_data-Safe _ (codes "E02") valid)
    where
      written : Bool × ArmCore
      written =
          Handlers.write_bytes_of old size address (drop 1 content)
            (ltb address (memory_get_size gdb.arm.mem)) gdb.arm

      valid :
          Live n e
            (Handlers.write_bytes_of old size address
              (drop 1 content)
              (ltb address (memory_get_size gdb.arm.mem))
              gdb.arm).1
      valid = live (write_bytes-IsValid _ old size address (drop 1 content) _ gdb.arm h)

module _ (u : Undefined) {n e : ℕ} where
  step-Safe : (gdb : Gdb) → Live n e gdb.arm → Safe n e (Handlers.step u gdb)
  unfolding Handlers.step
  step-Safe gdb h =
      after_step-Safe _ _ gdb gdb_send_stop_reason (arm_step-Sound u gdb.arm h) stop_reason-Safe

  cont-Safe : (fuel : ℕ) (gdb : Gdb) → Live n e gdb.arm → Safe n e (Handlers.cont u fuel gdb)
  unfolding Handlers.cont
  cont-Safe zero gdb h = tt
  cont-Safe (suc fuel) gdb h =
      if_both (Safe n e) (Handlers.at_breakpoint gdb.arm) (stop_reason-Safe gdb h) (
        after_step-Safe _ _ gdb (Handlers.cont u fuel) (arm_step-Sound u gdb.arm h)
          (cont-Safe fuel))

  read_memory-Safe :
      (gdb : Gdb) (s : List ℕ) → Live n e gdb.arm → Safe n e (Handlers.read_memory u gdb s)
  unfolding Handlers.read_memory
  read_memory-Safe gdb s h = send_buffer-Safe gdb _ h

  write_memory-Safe :
      (gdb : Gdb) (s : List ℕ) → Live n e gdb.arm → Safe n e (Handlers.write_memory_binary u gdb s)
  unfolding Handlers.write_memory_binary
  write_memory-Safe gdb s h = write_content-Safe _ gdb _ _ (index b':' s) h

-- the bytes that a number is read into
read_digits-lt :
    (fuel i step : ℕ) (s : List ℕ) (value : ℕ) (bytes : ℕ → ℕ)
    → ((k : ℕ) → bytes k < 256)
    → (k : ℕ) → read_digits fuel i step s value bytes k < 256
unfolding read_digits
read_digits-lt zero i step s value bytes h = h
read_digits-lt (suc fuel) i step s value bytes h =
    if_both (λ (f : ℕ → ℕ). (k : ℕ) → f k < 256) (ltb i 4)
      (read_digits-lt fuel (add32 i step) step (drop 2 s) (or_keep value (scan_width 2 s)) _
        (λ k. ground (arith, h k)))
      h

read_uint32-lt :
    (u : Undefined) (host target : Bool) (s : List ℕ) → read_uint32 u host target s < 2 ^ 32
unfolding read_uint32
read_uint32-lt u host target s = integer-lt (
    read_digits-lt 5 (first_index host target) (index_step host target) s (u32 u.local) _
      (λ k. omega arith))
  where
    integer-lt : {bytes : ℕ → ℕ} → ((k : ℕ) → bytes k < 256) → integer_of host bytes < 2 ^ 32
    integer-lt {bytes = bytes} h =
        if_both (λ x. x < 2 ^ 32) host (omega (arith, h 0, h 1, h 2, h 3))
          (omega (arith, h 0, h 1, h 2, h 3))

module _ (u : Undefined) (host target : Bool) {n e : ℕ} where
  write_general-IsValid :
      (t left i : ℕ) (s : List ℕ) (p : ArmCore)
      → IsValid t n e p
      → IsValid t n e (Handlers.write_general u host target left i s p)
  unfolding Handlers.write_general
  write_general-IsValid t zero i s p h = h
  write_general-IsValid t (suc left) i s p h =
      write_general-IsValid t left _ _ _
        (write_register-IsValid h i _ (read_uint32-lt u host target s))

  write_general_registers-Safe :
      (gdb : Gdb) (s : List ℕ)
      → Live n e gdb.arm
      → Safe n e (Handlers.write_general_registers u host target gdb s)
  unfolding Handlers.write_general_registers
  write_general_registers-Safe gdb s h = send_data-Safe _ _ (
      live (
        write_cpsr-IsValid (write_general-IsValid _ 16 0 s gdb.arm h) _
          (read_uint32-lt u host target (drop (8 * 41) s))))

  write_number-Safe :
      (gdb : Gdb) (reg : ℕ) (s : Option (List ℕ))
      → Live n e gdb.arm
      → Safe n e (Handlers.write_number u host target gdb reg s)
  unfolding Handlers.write_number
  write_number-Safe gdb reg none h = tt
  write_number-Safe gdb reg (some rest) h =
      if_both (Safe n e) (ltb reg 16)
        (send_data-Safe _ _
          (live (write_register-IsValid h reg _ (read_uint32-lt u host target (drop 1 rest)))))
        tt

  write_register-Safe :
      (gdb : Gdb) (s : List ℕ)
      → Live n e gdb.arm
      → Safe n e (Handlers.write_register u host target gdb s)
  unfolding Handlers.write_register
  write_register-Safe gdb s h = write_number-Safe gdb _ (index b'=' s) h

  read_register-Safe :
      (gdb : Gdb) (s : List ℕ)
      → Live n e gdb.arm
      → Safe n e (Handlers.read_register host target gdb s)
  unfolding Handlers.read_register
  read_register-Safe gdb s h = if_both (Safe n e) (ltb (atoi s) 16) (send_buffer-Safe gdb _ h) tt

  handle-Safe :
      (fuel : ℕ) (gdb : Gdb) (letter : ℕ) (s : List ℕ)
      → Live n e gdb.arm
      → Safe n e (handle u host target fuel gdb letter s)
  unfolding handle Handlers.kill_request Handlers.read_general_registers Handlers.reason
  handle-Safe fuel gdb letter s h = if_both (Safe n e) (letter == b'c') (cont-Safe u fuel gdb h) (
      if_both (Safe n e) (letter == b'k') h (
        if_both (Safe n e) (letter == b'q') (query-Safe gdb s h) (
          if_both (Safe n e) (letter == b'g') (send_buffer-Safe gdb _ h) (
            if_both (Safe n e) (letter == b'm') (read_memory-Safe u gdb s h) (
              if_both (Safe n e) (letter == b'p') (read_register-Safe gdb s h) (
                if_both (Safe n e) (letter == b'?') (stop_reason-Safe gdb h) (
                  if_both (Safe n e) (letter == b'H') (set_thread-Safe gdb s h) (
                    if_both (Safe n e) (letter == b's') (step-Safe u gdb h) (
                      if_both (Safe n e) (letter == b'G') (write_general_registers-Safe gdb s h) (
                        if_both (Safe n e) (letter == b'X') (write_memory-Safe u gdb s h) (
                          if_both (Safe n e) (letter == b'P') (write_register-Safe gdb s h)
                            (send_data-Safe gdb [] h))))))))))))

  pub analysis-Safe :
      (fuel : ℕ) (gdb : Gdb) (packet : List ℕ)
      → Live n e gdb.arm
      → Safe n e (gdb_packet_analysis u host target fuel gdb packet)
  unfolding gdb_packet_analysis gdb_send_ack gdb_require_retransmission
  analysis-Safe fuel gdb packet h =
      if_both (Safe n e) (sum_of packet == given_sum u packet)
        (handle-Safe fuel _ (get_or 0 (cut_at_hash packet) 1) (drop 2 (cut_at_hash packet)) h) h
