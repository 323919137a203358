-- ===== src/Gdb/Scanner.antt =====
-- The scanner of scanner.l: the tokens of a stream of bytes and what it does with each. flex takes
-- the longest match, the first rule where two are as long, and copies what no rule matches, a
-- newline outside of a packet, to the standard output.
use projet_s5_prog.Base.{ℕ, zero, suc, ◌-◌, Bool, true, false, List, [], ◌∷◌, ◌++◌}
use projet_s5_prog.Base.{ltb, ◌==◌, if◌then◌else◌, length, Option, none, some}
use projet_s5_prog.Base.Scan.{hex_value}
use projet_s5_prog.Util.{Undefined}
use projet_s5_prog.Core.{ArmCore}
use projet_s5_prog.Gdb.State.{Gdb, Served, served, running, gdb_init_data}
use projet_s5_prog.Gdb.State.{gdb_transmit_packet, gdb_require_retransmission}
use projet_s5_prog.Gdb.Packet.{gdb_packet_analysis}

-- `struct parser_data`: `buffer` is its text up to `len`.
pub record ParserData : Type 0 where
  pub gdb : Gdb
  pub buffer : List ℕ

abbrev pub max_error_size : ℕ
max_error_size = 1024

unfoldable pub handle_error : ParserData → ParserData
handle_error d =
    if length d.buffer == 0
    then d
    else record { gdb = gdb_require_retransmission d.gdb; buffer = [] }

unfoldable pub add_character_to_error : ParserData → ℕ → ParserData
add_character_to_error d c =
    let d' = if ltb (max_error_size - 2) (length d.buffer) then handle_error d else d in
    record d' { buffer = d'.buffer ++ (c ∷ []) }

-- the rules, and the newline that none of them matches
pub data Token : Type 0 where
  ack nack newline : Token
  packet : List ℕ → Token
  character : ℕ → Token

abbrev pub is_hex : ℕ → Bool
is_hex c = elim (hex_value c) [ none ↦ false | some d ↦ true ]

-- `#` and two digits, behind a text
abbrev pub match_end : List ℕ → List ℕ → Option (List ℕ × List ℕ)
match_end text (h ∷ l ∷ s) =
    if is_hex h then (if is_hex l then some (text ++ (b'#' ∷ h ∷ l ∷ []), s) else none) else none
match_end text s = none

-- `[^$#]*#` and two digits, behind a text
unfoldable pub match_body : List ℕ → List ℕ → Option (List ℕ × List ℕ)
match_body text [] = none
match_body text (c ∷ s) =
    let longer = match_body (text ++ (c ∷ [])) s in
    if c == b'#' then match_end text s else if c == b'$' then none else longer

abbrev pub single : ℕ → Token
single c =
    if c == b'+' then ack else if c == b'-' then nack else if c == 10 then newline else character c

-- the token at the start of c ∷ s, and what follows it
abbrev pub matched : ℕ → List ℕ → Option (List ℕ × List ℕ) → Token × List ℕ
matched c s none = (single c, s)
matched c s (some (text, rest)) = (packet text, rest)

unfoldable pub next_token : ℕ → List ℕ → Token × List ℕ
next_token c s = matched c s (if c == b'$' then match_body (b'$' ∷ []) s else none)

-- the actions; where a request does not return, the scanner does not either.
pub data Acted : Type 0 where
  goes : ParserData → Acted
  ends : Served → Acted

abbrev pub after_packet : Served → Acted
after_packet (served gdb) = goes (record { gdb = gdb; buffer = [] })
after_packet r = ends r

abbrev pub after_act : Acted → (ParserData → Served) → Served
after_act (goes d) next = next d
after_act (ends r) next = r

module _ (u : Undefined) (host target : Bool) (steps : ℕ) where
  unfoldable pub act : Token → ParserData → Acted
  act ack d = goes (handle_error d)
  act nack d = let d' = handle_error d in goes (record d' { gdb = gdb_transmit_packet d'.gdb })
  act newline d = goes d
  act (packet text) d =
      after_packet (gdb_packet_analysis u host target steps (handle_error d).gdb text)
  act (character c) d = goes (add_character_to_error d c)

  -- `yylex` on all bytes that arrive until the end of the stream, on fuel for the tokens
  unfoldable pub yylex : ℕ → ParserData → List ℕ → Served
  yylex zero d input = running
  yylex (suc fuel) d [] = served (handle_error d).gdb
  yylex (suc fuel) d (c ∷ s) =
      let (token, rest) = next_token c s in after_act (act token d) (λ d'. yylex fuel d' rest)

  -- A token takes at least one byte.
  unfoldable pub gdb_scanner : ArmCore → List ℕ → Served
  gdb_scanner arm input =
      yylex (suc (length input)) (record { gdb = gdb_init_data arm; buffer = [] }) input
