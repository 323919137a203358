-- ===== src/Examples/Server.antt =====
-- The properties of the debugger protocol at concrete inputs.
use projet_s5_prog.Base.{List, ℕ, ◌%◌, ◌≡◌, arith, refl, true, false, [], ◌∷◌, ◌++◌}
use projet_s5_prog.Base.{codes}
use projet_s5_prog.Base.Scan.{two_hex}
use projet_s5_prog.Registers.{read_register}
use projet_s5_prog.Core.{arm_read_register}
use projet_s5_prog.Gdb.State.{Gdb, served, checksum, framed, gdb_init_data, gdb_send_data}
use projet_s5_prog.Gdb.State.{gdb_send_ack, gdb_require_retransmission}
use projet_s5_prog.Gdb.Packet.{handle, gdb_packet_analysis}
use projet_s5_prog.Gdb.Framing.{framed_with, analysis-framed, analysis_corrupted}
use projet_s5_prog.Fetch.{stored_pc}
use projet_s5_prog.Gdb.Restored.{registers_restored}
use projet_s5_prog.Invariant.{IsValid}
use projet_s5_prog.Examples.Data.{zeros, machine, machine-IsValid}

abbrev server : Gdb
server = gdb_init_data machine

analysis-framed_example :
    gdb_packet_analysis zeros false false 9 server (framed (codes "g"))
    ≡ handle zeros false false 9
        (gdb_send_ack server)
        b'g'
        (0 ∷ (two_hex (checksum 0 (codes "g")) ++ 0 ∷ []))
analysis-framed_example = analysis-framed zeros false false 9 server b'g' []

-- `p1` arrives as `q1`.
analysis_corrupted_example :
    gdb_packet_analysis zeros false false 9 server
      (framed_with (checksum 0 (codes "p1")) (codes "q1"))
    ≡ served (gdb_require_retransmission server)
analysis_corrupted_example =
    analysis_corrupted zeros false false 9 server [] (codes "1") b'p' b'q' (omega arith)
      (omega arith) (omega arith)

aligned_pc : stored_pc server.arm % 4 ≡ 0
unfolding gdb_init_data arm_read_register read_register
aligned_pc = refl

machine_served : IsValid 0 64 0 server.arm
unfolding gdb_init_data
machine_served = machine-IsValid

registers_restored_example :
    (g : Gdb) × (text : List ℕ) × (gdb_packet_analysis zeros false true 9 server
        (framed (codes "g"))
      ≡ served g)
    × (g.packet ≡ framed text)
    × (gdb_packet_analysis zeros false true 9 g (framed (b'G' ∷ text))
        ≡ gdb_send_data (record (gdb_send_ack g) { arm = server.arm }) (codes "OK"))
registers_restored_example =
    registers_restored zeros false true 9 0 64 0 server machine_served aligned_pc
