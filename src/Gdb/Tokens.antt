-- ===== src/Gdb/Tokens.antt =====
-- The tokens of the scanner: what it takes for a packet, and the buffer of the bytes in error.
use projet_s5_prog.Base.{
  ℕ, ◌/◌, ◌%◌, ◌<◌, ◌≤◌, ◌≡◌, ◌≢◌, refl, arith, ap, ◌∙◌, Bool, true, List, [], ◌∷◌, ◌++◌,
}
use projet_s5_prog.Base.{ltb, if◌then◌else◌, length, some, ==_ne}
use projet_s5_prog.Base.Scan.{two_hex, hex_value, hex_digit}
use mathlib.Core.List.{append_assoc}
use projet_s5_prog.Util.{Undefined}
use projet_s5_prog.Gdb.State.{Served, served, exited, aborted, faulted, running, framed, checksum}
use projet_s5_prog.Gdb.Framing.{length-append, checksum-lt}
use projet_s5_prog.Gdb.Scanner.{
  ParserData, Token, Acted, ack, nack, newline, packet, character, goes, ends, handle_error,
  add_character_to_error, match_end, match_body, next_token, after_packet, act, is_hex,
}

-- a text that the frame can hold: no `$` and no `#`
abbrev pub IsPlain : List ℕ → Type 0
IsPlain [] = Unit
IsPlain (c ∷ s) = (c ≢ b'$') × (c ≢ b'#') × IsPlain s

hex_digit-is_hex : (d : ℕ) → d < 16 → is_hex (hex_digit d) ≡ true
unfolding hex_value
hex_digit-is_hex d h = ground arith

end_found :
    (check : ℕ) (text rest : List ℕ)
    → check < 256
    → match_end text (two_hex check ++ rest) ≡ some (text ++ (b'#' ∷ two_hex check), rest)
end_found check text rest h =
    rw (hex_digit-is_hex (check / 16) (omega arith), hex_digit-is_hex (check % 16) (omega arith))
      refl

pub body_found :
    (check : ℕ) (text s rest : List ℕ)
    → check < 256
    → IsPlain s
    → match_body text (s ++ b'#' ∷ (two_hex check ++ rest))
      ≡ some (text ++ (s ++ b'#' ∷ two_hex check), rest)
unfolding match_body
body_found check text [] rest h plain = end_found check text rest h
body_found check text (c ∷ s) rest h (dollar, hash, plain) =
    rw (==_ne c b'#' hash, ==_ne c b'$' dollar)
      (body_found check (text ++ (c ∷ [])) s rest h plain
        ∙ ap (λ (t : List ℕ). some (t, rest))
            (append_assoc text (c ∷ []) (s ++ b'#' ∷ two_hex check)))

-- The length of the buffer for the bytes in error, with the NUL that handle_error puts behind them
abbrev pub Fits : Acted → Type 0
Fits (goes d) = length d.buffer ≤ 1023
Fits (ends r) = Unit

error-Fits : (d : ParserData) → length d.buffer ≤ 1023 → length (handle_error d).buffer ≤ 1023
unfolding handle_error
error-Fits d h = ground arith

grown : (s : List ℕ) (c : ℕ) → length s ≤ 1022 → length (s ++ (c ∷ [])) ≤ 1023
grown s c h = omega (arith, length-append s (c ∷ []))

emptied :
    (d : ParserData)
    → length (if ltb 1022 (length d.buffer) then handle_error d else d).buffer ≤ 1022
unfolding handle_error
emptied d = ground arith

character-Fits : (d : ParserData) (c : ℕ) → length (add_character_to_error d c).buffer ≤ 1023
unfolding add_character_to_error
character-Fits d c = grown _ c (emptied d)

packet-Fits : (r : Served) → Fits (after_packet r)
packet-Fits (served gdb) = omega arith
packet-Fits (exited status) = tt
packet-Fits aborted = tt
packet-Fits faulted = tt
packet-Fits running = tt

-- Every action of the scanner leaves at most 1023 bytes in the buffer of 1024 for the bytes in
-- error, so that the NUL behind them has its place.
pub act-Fits :
    (u : Undefined) (host target : Bool) (steps : ℕ) (token : Token) (d : ParserData)
    → length d.buffer ≤ 1023
    → Fits (act u host target steps token d)
unfolding act
act-Fits u host target steps ack d h = error-Fits d h
act-Fits u host target steps nack d h = error-Fits d h
act-Fits u host target steps newline d h = h
act-Fits u host target steps (packet text) d h = packet-Fits _
act-Fits u host target steps (character c) d h = character-Fits d c

-- A text without `$` and `#` in the frame that `gdb_send_buffer` puts around it is one token of
-- the scanner, the whole frame, whatever bytes follow.
pub next_token-framed :
    (s rest : List ℕ)
    → IsPlain s
    → next_token b'$' (s ++ b'#' ∷ (two_hex (checksum 0 s) ++ rest)) ≡ (packet (framed s), rest)
unfolding next_token framed
next_token-framed s rest plain =
    rw (body_found (checksum 0 s) (b'$' ∷ []) s rest (checksum-lt s) plain) refl
