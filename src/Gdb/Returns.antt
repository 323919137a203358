-- ===== src/Gdb/Returns.antt =====
-- Which requests always come to an end: all but the one that lets the program run on.
use projet_s5_prog.Base.{ℕ, ◌-◌, ◌≢◌, Bool, List, [], Option, none, some}
use projet_s5_prog.Base.{ltb, ◌==◌, ◌&&◌, ◌||◌, codes, length, c_string, index, get_or, drop}
use projet_s5_prog.Base.{if_both, ==_ne}
use projet_s5_prog.Base.Scan.{atoi}
use projet_s5_prog.Util.{Undefined}
use projet_s5_prog.Exception.{undefined_instruction}
use projet_s5_prog.Memory.{memory_get_size}
use projet_s5_prog.Branch.{Outcome, ran, exited}
use projet_s5_prog.Instruction.{arm_step}
use projet_s5_prog.Gdb.State.{
  Gdb, Served, running, framed, max_packet_size, prefetch_abort, data_abort, gdb_send_buffer,
  gdb_send_data, gdb_send_stop_reason,
}
use projet_s5_prog.Gdb.Handlers
use projet_s5_prog.Gdb.Packet.{handle, gdb_packet_analysis, cut_at_hash, sum_of, given_sum}

-- an end of any kind, within the fuel
abbrev pub Returns : Served → Type 0
Returns running = ⊥
Returns r = Unit

buffer-Returns : (gdb : Gdb) (s : List ℕ) → Returns (gdb_send_buffer gdb s)
unfolding gdb_send_buffer
buffer-Returns gdb s =
    if_both Returns
      (ltb (length (framed (c_string s))) max_packet_size && ltb (length s) (max_packet_size - 1))
      tt tt

data-Returns : (gdb : Gdb) (s : List ℕ) → Returns (gdb_send_data gdb s)
unfolding gdb_send_data
data-Returns gdb s = buffer-Returns gdb s

stop_reason-Returns : (gdb : Gdb) → Returns (gdb_send_stop_reason gdb)
unfolding gdb_send_stop_reason
stop_reason-Returns gdb =
    if_both Returns (gdb.target_exception == undefined_instruction) (data-Returns gdb (codes "S04"))
      (if_both Returns
        (gdb.target_exception == prefetch_abort || gdb.target_exception == data_abort)
        (data-Returns gdb (codes "S10")) (data-Returns gdb (codes "S05")))

query-Returns : (gdb : Gdb) (s : List ℕ) → Returns (Handlers.query gdb s)
unfolding Handlers.query
query-Returns gdb s = if_both Returns (Handlers.is_text s (codes "Offsets")) (data-Returns gdb _) (
    if_both Returns (Handlers.starts_with 9 s (codes "Supported")) (data-Returns gdb _) (
      if_both Returns (Handlers.is_text s (codes "TStatus")) (data-Returns gdb _) (
        if_both Returns (Handlers.is_text s (codes "Symbol::")) (data-Returns gdb [])
          (data-Returns gdb []))))

set_thread-Returns : (gdb : Gdb) (s : List ℕ) → Returns (Handlers.set_thread gdb s)
unfolding Handlers.set_thread
set_thread-Returns gdb s = if_both Returns _ (data-Returns gdb _) (data-Returns gdb _)

step-Returns : (u : Undefined) (gdb : Gdb) → Returns (Handlers.step u gdb)
unfolding Handlers.step
step-Returns u gdb = after (arm_step u gdb.arm)
  where
    after : (o : Outcome) → Returns (Handlers.after_step o gdb gdb_send_stop_reason)
    after (ran code p) = stop_reason-Returns _
    after (exited status) = tt

content-Returns :
    (old : ℕ) (gdb : Gdb) (address size : ℕ) (c : Option (List ℕ))
    → Returns (Handlers.write_content old gdb address size c)
unfolding Handlers.write_content
content-Returns old gdb address size none = tt
content-Returns old gdb address size (some content) =
    if_both Returns
      (Handlers.write_bytes_of old size address (drop 1 content)
        (ltb address (memory_get_size gdb.arm.mem)) gdb.arm).0
      (data-Returns _ (codes "OK")) (data-Returns _ (codes "E02"))

module _ (u : Undefined) (host target : Bool) where
  number-Returns :
      (gdb : Gdb) (reg : ℕ) (s : Option (List ℕ))
      → Returns (Handlers.write_number u host target gdb reg s)
  unfolding Handlers.write_number
  number-Returns gdb reg none = tt
  number-Returns gdb reg (some rest) = if_both Returns (ltb reg 16) (data-Returns _ _) tt

  register-Returns : (gdb : Gdb) (s : List ℕ) → Returns (Handlers.read_register host target gdb s)
  unfolding Handlers.read_register
  register-Returns gdb s = if_both Returns (ltb (atoi s) 16) (buffer-Returns gdb _) tt

  -- every letter but `c`
  pub handle-Returns :
      (steps : ℕ) (gdb : Gdb) (letter : ℕ) (s : List ℕ)
      → letter ≢ b'c'
      → Returns (handle u host target steps gdb letter s)
  unfolding handle Handlers.kill_request Handlers.read_general_registers Handlers.reason
      Handlers.read_memory Handlers.write_memory_binary Handlers.write_register
      Handlers.write_general_registers
  handle-Returns steps gdb letter s other = rw (==_ne letter b'c' other) (
      if_both Returns (letter == b'k') tt (
        if_both Returns (letter == b'q') (query-Returns gdb s) (
          if_both Returns (letter == b'g') (buffer-Returns gdb _) (
            if_both Returns (letter == b'm') (buffer-Returns gdb _) (
              if_both Returns (letter == b'p') (register-Returns gdb s) (
                if_both Returns (letter == b'?') (stop_reason-Returns gdb) (
                  if_both Returns (letter == b'H') (set_thread-Returns gdb s) (
                    if_both Returns (letter == b's') (step-Returns u gdb) (
                      if_both Returns (letter == b'G') (data-Returns _ _) (
                        if_both Returns (letter == b'X') (content-Returns _ gdb _ _ (index b':' s))
                          (if_both Returns (letter == b'P') (number-Returns gdb _ (index b'=' s))
                            (data-Returns gdb []))))))))))))

  pub analysis-Returns :
      (steps : ℕ) (gdb : Gdb) (packet : List ℕ)
      → get_or 0 (cut_at_hash packet) 1 ≢ b'c'
      → Returns (gdb_packet_analysis u host target steps gdb packet)
  unfolding gdb_packet_analysis
  analysis-Returns steps gdb packet other =
      if_both Returns (sum_of packet == given_sum u packet)
        (handle-Returns steps _ (get_or 0 (cut_at_hash packet) 1) (drop 2 (cut_at_hash packet))
          other)
        tt
