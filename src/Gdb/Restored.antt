-- ===== src/Gdb/Restored.antt =====
-- The request that reads all registers, and the one that writes them, one behind the other.
use projet_s5_prog.Base.{ℕ, zero, suc, ◌+◌, ◌*◌, ◌-◌, ◌%◌, ◌≡◌, arith, refl, ap, sym}
use mathlib.Core.List.{append_assoc}
use projet_s5_prog.Base.{Bool, true, false, List, [], ◌∷◌, ◌++◌, ◌∙◌}
use projet_s5_prog.Base.{ltb, ◌&&◌, codes, sub32, length, c_string}
use projet_s5_prog.Base.Scan.{two_hex}
use projet_s5_prog.Util.{Undefined}
use projet_s5_prog.Core.{ArmCore, arm_read_register, arm_read_cpsr}
use projet_s5_prog.Fetch.{stored_pc}
use projet_s5_prog.Gdb.Number.{write_uint32}
use projet_s5_prog.Gdb.Numbers.{word_text, write_uint32-word_text}
use projet_s5_prog.Gdb.State.{
  Gdb, served, checksum, framed, max_packet_size, gdb_send_ack, gdb_send_buffer, gdb_send_data,
  gdb_transmit_packet,
}
use projet_s5_prog.Gdb.Handlers
use projet_s5_prog.Gdb.Packet.{handle, gdb_packet_analysis}
use projet_s5_prog.Gdb.Framing.{length-append, analysis-framed}
use projet_s5_prog.Gdb.Reading.{c_string-two_hex, framed-length}
use projet_s5_prog.Gdb.Registers.{registers_text, text_restored}
use projet_s5_prog.Invariant.{IsValid}

four_digits :
    (a b c d : ℕ) (s : List ℕ)
    → c_string (two_hex a ++ (two_hex b ++ (two_hex c ++ (two_hex d ++ s))))
      ≡ two_hex a ++ (two_hex b ++ (two_hex c ++ (two_hex d ++ c_string s)))
four_digits a b c d s =
    c_string-two_hex a (two_hex b ++ (two_hex c ++ (two_hex d ++ s)))
    ∙ ap (λ (r : List ℕ). two_hex a ++ r)
        (c_string-two_hex b (two_hex c ++ (two_hex d ++ s))
          ∙ ap (λ (r : List ℕ). two_hex b ++ r)
              (c_string-two_hex c (two_hex d ++ s)
                ∙ ap (λ (r : List ℕ). two_hex c ++ r) (c_string-two_hex d s)))

word_text-c_string :
    (big : Bool) (v : ℕ) (s : List ℕ)
    → c_string (word_text big v ++ s) ≡ word_text big v ++ c_string s
word_text-c_string true v s = four_digits _ _ _ _ s
word_text-c_string false v s = four_digits _ _ _ _ s

last_word : (big : Bool) (v : ℕ) → c_string (word_text big v) ≡ word_text big v
last_word true v = word_text-c_string true v []
last_word false v = word_text-c_string false v []

word_text-length : (big : Bool) (v : ℕ) → length (word_text big v) ≡ 8
word_text-length true v = refl
word_text-length false v = refl

unavailable-c_string :
    (k : ℕ) (s : List ℕ)
    → c_string (Handlers.unavailable k ++ s) ≡ Handlers.unavailable k ++ c_string s
unfolding Handlers.unavailable
unavailable-c_string zero s = refl
unavailable-c_string (suc k) s =
    ap (λ (r : List ℕ). codes "xxxxxxxx" ++ r) (unavailable-c_string k s)

unavailable-length : (k : ℕ) → length (Handlers.unavailable k) ≡ 8 * k
unfolding Handlers.unavailable
unavailable-length zero = refl
unavailable-length (suc k) = omega (arith, unavailable-length k)

module _ (host target : Bool) where
  word-c_string :
      (v : ℕ) (s : List ℕ)
      → c_string (write_uint32 host target v ++ s) ≡ write_uint32 host target v ++ c_string s
  word-c_string v s = rw (write_uint32-word_text host target v) (word_text-c_string target v s)

  word-length : (v : ℕ) → length (write_uint32 host target v) ≡ 8
  word-length v = rw (write_uint32-word_text host target v) (word_text-length target v)

  word_end : (v : ℕ) → c_string (write_uint32 host target v) ≡ write_uint32 host target v
  word_end v = rw (write_uint32-word_text host target v) (last_word target v)

  general-c_string :
      (p : ArmCore) (left i : ℕ) (s : List ℕ)
      → c_string (Handlers.general_digits host target p left i ++ s)
        ≡ Handlers.general_digits host target p left i ++ c_string s
  unfolding Handlers.general_digits
  general-c_string p zero i s = refl
  general-c_string p (suc left) i s =
      rw
        (append_assoc (write_uint32 host target (arm_read_register p i))
          (Handlers.general_digits host target p left (i + 1)) s)
        (word-c_string (arm_read_register p i) _
          ∙ rw (general-c_string p left (i + 1) s) (
              sym (
                append_assoc (write_uint32 host target (arm_read_register p i))
                  (Handlers.general_digits host target p left (i + 1)) (c_string s))))

  general-length :
      (p : ArmCore) (left i : ℕ) → length (Handlers.general_digits host target p left i) ≡ 8 * left
  unfolding Handlers.general_digits
  general-length p zero i = refl
  general-length p (suc left) i = omega (
    arith,
    length-append (write_uint32 host target (arm_read_register p i))
        (Handlers.general_digits host target p left (i + 1)),
    word-length (arm_read_register p i),
    general-length p left (i + 1),
  )

  registers_text-c_string :
      (p : ArmCore) → c_string (registers_text host target p) ≡ registers_text host target p
  registers_text-c_string p =
      general-c_string p 15 0 _
      ∙ ap (λ (r : List ℕ). Handlers.general_digits host target p 15 0 ++ r)
          (word-c_string (sub32 (arm_read_register p 15) 4) _
            ∙ ap (λ (r : List ℕ). write_uint32 host target (sub32 (arm_read_register p 15) 4) ++ r)
                (unavailable-c_string 24 _
                  ∙ ap (λ (r : List ℕ). Handlers.unavailable 24 ++ r)
                      (unavailable-c_string 1 _
                        ∙ ap (λ (r : List ℕ). Handlers.unavailable 1 ++ r)
                            (word_end (arm_read_cpsr p)))))

  registers_text-length : (p : ArmCore) → length (registers_text host target p) ≡ 336
  registers_text-length p =
      let pc = write_uint32 host target (sub32 (arm_read_register p 15) 4) in
      let status = write_uint32 host target (arm_read_cpsr p) in
      omega (
        arith,
        length-append (Handlers.general_digits host target p 15 0)
            (pc ++ (Handlers.unavailable 24 ++ (Handlers.unavailable 1 ++ status))),
        length-append pc (Handlers.unavailable 24 ++ (Handlers.unavailable 1 ++ status)),
        length-append (Handlers.unavailable 24) (Handlers.unavailable 1 ++ status),
        length-append (Handlers.unavailable 1) status,
        general-length p 15 0,
        word-length (sub32 (arm_read_register p 15) 4),
        word-length (arm_read_cpsr p),
        unavailable-length 24,
        unavailable-length 1,
      )

  registers_text-fits :
      (p : ArmCore)
      → (ltb (length (framed (registers_text host target p))) max_packet_size
          && ltb (length (registers_text host target p)) (max_packet_size - 1))
        ≡ true
  registers_text-fits p =
      ground (arith, framed-length (registers_text host target p), registers_text-length p)

  -- the answer to the request that reads all registers
  abbrev pub registers_sent : Gdb → Gdb
  registers_sent gdb =
      gdb_transmit_packet (record gdb { packet = framed (registers_text host target gdb.arm) })

  registers_answered :
      (gdb : Gdb) → Handlers.read_general_registers host target gdb ≡ served (registers_sent gdb)
  unfolding Handlers.read_general_registers gdb_send_buffer
  registers_answered gdb = rw (registers_text-c_string gdb.arm, registers_text-fits gdb.arm) refl

-- A debugger that reads all registers and writes back what it was told changes nothing: in a valid
-- core with an aligned program counter, in every combination of the byte orders of host and target,
-- the request `g` is served and leaves a text in its frame as the answer, and the request `G` with
-- this text is answered `OK` from the processor as it was.
pub registers_restored :
    (u : Undefined) (host target : Bool) (fuel t n e : ℕ) (gdb : Gdb)
    → IsValid t n e gdb.arm
    → stored_pc gdb.arm % 4 ≡ 0
    → (g : Gdb) × (text : List ℕ) × (gdb_packet_analysis u host target fuel gdb (framed (codes "g"))
        ≡ served g)
      × (g.packet ≡ framed text)
      × (gdb_packet_analysis u host target fuel g (framed (b'G' ∷ text))
          ≡ gdb_send_data (record (gdb_send_ack g) { arm = gdb.arm }) (codes "OK"))
unfolding handle gdb_send_ack gdb_transmit_packet
registers_restored u host target fuel t n e gdb h aligned =
    let text = registers_text host target gdb.arm in
    let g = registers_sent host target (gdb_send_ack gdb) in
    (
      g,
      text,
      analysis-framed u host target fuel gdb b'g' []
          ∙ registers_answered host target (gdb_send_ack gdb),
      refl,
      analysis-framed u host target fuel g b'G' text
          ∙ text_restored u host target t n e (gdb_send_ack g)
              (0 ∷ (two_hex (checksum 0 (b'G' ∷ text)) ++ 0 ∷ [])) h aligned,
    )
