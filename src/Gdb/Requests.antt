-- ===== src/Gdb/Requests.antt =====
-- What the scanner makes of the messages that a debugger sends, one behind the other.
use projet_s5_prog.Base.{ℕ, ◌<◌, ◌≡◌, refl, Bool, List, [], ◌∷◌, ◌++◌}
use projet_s5_prog.Base.{◌==◌, if◌then◌else◌}
use projet_s5_prog.Base.Scan.{two_hex}
use projet_s5_prog.Util.{Undefined}
use projet_s5_prog.Gdb.State.{
  Gdb, Served, served, checksum, gdb_transmit_packet, gdb_send_ack, gdb_require_retransmission,
}
use projet_s5_prog.Gdb.Packet.{handle, gdb_packet_analysis}
use projet_s5_prog.Gdb.Tokens.{IsPlain}
use projet_s5_prog.Gdb.Scanner.{packet, handle_error, after_packet, act, yylex}

-- A message of the debugger: an answer is accepted, an answer is to be sent again, or a request,
-- with the sum that is sent with it, its letter and what follows the letter.
pub data Message : Type 0 where
  accepted again : Message
  request : ℕ → ℕ → List ℕ → Message

-- the bytes of messages
abbrev pub stream : List Message → List ℕ
stream [] = []
stream (accepted ∷ ms) = b'+' ∷ stream ms
stream (again ∷ ms) = b'-' ∷ stream ms
stream (request check c s ∷ ms) = b'$' ∷ ((c ∷ s) ++ b'#' ∷ (two_hex check ++ stream ms))

abbrev pub AreMessages : List Message → Type 0
AreMessages [] = Unit
AreMessages (accepted ∷ ms) = AreMessages ms
AreMessages (again ∷ ms) = AreMessages ms
AreMessages (request check c s ∷ ms) = (check < 256) × IsPlain (c ∷ s) × AreMessages ms

abbrev pub then_next : Served → (Gdb → Served) → Served
then_next (served gdb) next = next gdb
then_next r next = r

module _ (u : Undefined) (host target : Bool) (steps : ℕ) where
  -- what one message does, without any bytes
  abbrev pub answer : Message → Gdb → Served
  answer accepted gdb = served gdb
  answer again gdb = served (gdb_transmit_packet gdb)
  answer (request check c s) gdb =
      if checksum 0 (c ∷ s) == check
      then handle u host target steps (gdb_send_ack gdb) c (s ++ 0 ∷ (two_hex check ++ 0 ∷ []))
      else served (gdb_require_retransmission gdb)

  -- all messages in their order, as long as each is served
  abbrev pub serve : List Message → Gdb → Served
  serve [] gdb = served gdb
  serve (m ∷ ms) gdb = then_next (answer m gdb) (serve ms)

  abbrev Follows : ℕ → List Message → Type 0
  Follows fuel ms =
      (gdb : Gdb)
      → yylex u host target steps fuel (record { gdb = gdb; buffer = [] }) (stream ms)
        ≡ serve ms gdb

  acted :
      (gdb : Gdb) (text : List ℕ)
      → act u host target steps (packet text) (record { gdb = gdb; buffer = [] })
        ≡ after_packet (gdb_packet_analysis u host target steps gdb text)
  unfolding act handle_error
  acted gdb text = refl
