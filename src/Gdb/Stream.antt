-- ===== src/Gdb/Stream.antt =====
-- The scanner comes to the end of a stream of bytes.
use projet_s5_prog.Base.{
  ℕ, zero, suc, ◌+◌, ◌<◌, ◌≤◌, ◌≢◌, arith, Bool, List, [], ◌∷◌, ◌++◌, Option, none, some,
}
use projet_s5_prog.Base.{◌==◌, length, take, drop, get_or, if_both, subst}
use projet_s5_prog.Util.{Undefined}
use projet_s5_prog.Core.{ArmCore}
use projet_s5_prog.Gdb.State.{Served, served, exited, aborted, faulted, running, gdb_init_data}
use projet_s5_prog.Gdb.Packet.{hash_place, cut_at_hash}
use projet_s5_prog.Gdb.Returns.{Returns, analysis-Returns}
use projet_s5_prog.Gdb.Scanner.{
  ParserData, Token, Acted, ack, nack, newline, packet, character, goes, ends, handle_error, is_hex,
  single, match_end, match_body, matched, next_token, after_packet, after_act, act, yylex,
  gdb_scanner,
}

-- a text without the letter `c`
abbrev pub LacksC : List ℕ → Type 0
LacksC [] = Unit
LacksC (c ∷ s) = (c ≢ b'c') × LacksC s

pub append-LacksC : (s t : List ℕ) → LacksC s → LacksC t → LacksC (s ++ t)
append-LacksC [] t h k = k
append-LacksC (c ∷ s) t (other, h) k = (other, append-LacksC s t h k)

take-LacksC : (n : ℕ) (s : List ℕ) → LacksC s → LacksC (take n s)
take-LacksC zero s h = tt
take-LacksC (suc n) [] h = tt
take-LacksC (suc n) (c ∷ s) (other, h) = (other, take-LacksC n s h)

drop-LacksC : (n : ℕ) (s : List ℕ) → LacksC s → LacksC (drop n s)
drop-LacksC zero s h = h
drop-LacksC (suc n) [] h = tt
drop-LacksC (suc n) (c ∷ s) (other, h) = drop-LacksC n s h

get_or-LacksC : (s : List ℕ) (i : ℕ) → LacksC s → get_or 0 s i ≢ b'c'
get_or-LacksC [] i h = omega arith
get_or-LacksC (c ∷ s) zero (other, h) = other
get_or-LacksC (c ∷ s) (suc i) (other, h) = get_or-LacksC s i h

cut-LacksC : (text : List ℕ) → LacksC text → LacksC (cut_at_hash text)
cut-LacksC text h =
    append-LacksC (take (hash_place text) text) _ (take-LacksC (hash_place text) text h) (
      omega arith,
      append-LacksC (drop (hash_place text + 1) text) _ (drop-LacksC (hash_place text + 1) text h)
          (omega arith, tt),
    )

-- What a match found: a text without the letter, and a shorter rest without it
abbrev Found : ℕ → Option (List ℕ × List ℕ) → Type 0
Found n none = Unit
Found n (some (text, rest)) = LacksC text × LacksC rest × (length rest ≤ n)

end-Found :
    (text s : List ℕ) (n : ℕ) → LacksC text → LacksC s → length s ≤ n → Found n (match_end text s)
end-Found text [] n h k le = tt
end-Found text (x ∷ []) n h k le = tt
end-Found text (x ∷ y ∷ s) n h (hx, (hy, k)) le =
    let found : Found n (some (text ++ (b'#' ∷ x ∷ y ∷ []), s)) =
      (append-LacksC text (b'#' ∷ x ∷ y ∷ []) h (omega arith, (hx, (hy, tt))), k, omega arith) in
    if_both (Found n) (is_hex x) (if_both (Found n) (is_hex y) found tt) tt

body-Found :
    (text s : List ℕ) (n : ℕ) → LacksC text → LacksC s → length s ≤ n → Found n (match_body text s)
unfolding match_body
body-Found text [] n h k le = tt
body-Found text (c ∷ s) n h (other, k) le =
    if_both (Found n) (c == b'#') (end-Found text s n h k (omega arith)) (
      if_both (Found n) (c == b'$') tt (
        body-Found (text ++ (c ∷ [])) s n (append-LacksC text (c ∷ []) h (other, tt)) k
          (omega arith)))

abbrev TokenLacksC : Token → Type 0
TokenLacksC (packet text) = LacksC text
TokenLacksC token = Unit

module _ (c : ℕ) (s : List ℕ) (k : LacksC s) where
  abbrev Scanned : Token × List ℕ → Type 0
  Scanned (token, rest) = TokenLacksC token × LacksC rest × (length rest ≤ length s)

  single-TokenLacksC : TokenLacksC (single c)
  single-TokenLacksC =
      if_both TokenLacksC (c == b'+') tt
        (if_both TokenLacksC (c == b'-') tt (if_both TokenLacksC (c == 10) tt tt))

  matched-Scanned : (o : Option (List ℕ × List ℕ)) → Found (length s) o → Scanned (matched c s o)
  matched-Scanned none h = (single-TokenLacksC, k, omega arith)
  matched-Scanned (some (text, rest)) h = h

  token-Scanned : Scanned (next_token c s)
  unfolding next_token
  token-Scanned = matched-Scanned _ (
      if_both (Found (length s)) (c == b'$')
        (body-Found (b'$' ∷ []) s (length s) (omega arith, tt) k (omega arith)) tt)

module _ (u : Undefined) (host target : Bool) (steps : ℕ) where
  abbrev Continues : Acted → Type 0
  Continues (goes d) = Unit
  Continues (ends r) = Returns r

  packet-Continues : (r : Served) → Returns r → Continues (after_packet r)
  packet-Continues (served gdb) h = tt
  packet-Continues (exited status) h = tt
  packet-Continues aborted h = tt
  packet-Continues faulted h = tt
  packet-Continues running h = h

  act-Continues :
      (token : Token) (d : ParserData)
      → TokenLacksC token
      → Continues (act u host target steps token d)
  unfolding act
  act-Continues ack d h = tt
  act-Continues nack d h = tt
  act-Continues newline d h = tt
  act-Continues (packet text) d h = packet-Continues _ (
      analysis-Returns u host target steps (handle_error d).gdb text
        (get_or-LacksC (cut_at_hash text) 1 (cut-LacksC text h)))
  act-Continues (character c) d h = tt

  then-Returns :
      (a : Acted) (next : ParserData → Served)
      → Continues a
      → ((d : ParserData) → Returns (next d))
      → Returns (after_act a next)
  then-Returns (goes d) next h k = k d
  then-Returns (ends r) next h k = h

  yylex-Returns :
      (fuel : ℕ) (d : ParserData) (input : List ℕ)
      → LacksC input
      → length input < fuel
      → Returns (yylex u host target steps fuel d input)
  unfolding yylex
  yylex-Returns zero d input h lt = absurd (omega arith)
  yylex-Returns (suc fuel) d [] h lt = tt
  yylex-Returns (suc fuel) d (c ∷ s) (other, h) lt =
      let (token, rest, shorter) = token-Scanned c s h in
      then-Returns (act u host target steps (next_token c s).0 d) _
        (act-Continues (next_token c s).0 d token)
        (λ d'. yylex-Returns fuel d' (next_token c s).1 rest (omega arith))

-- On any stream of bytes in which the letter `c` does not occur, whatever else stands in it, the
-- scanner comes to an end within its fuel: no request but the one with that letter, which lets the
-- program run on, keeps it from reading on to the end of the stream, or from ending before.
pub gdb_scanner-Returns :
    (u : Undefined) (host target : Bool) (steps : ℕ) (arm : ArmCore) (input : List ℕ)
    → LacksC input
    → gdb_scanner u host target steps arm input ≢ running
unfolding gdb_scanner
gdb_scanner-Returns u host target steps arm input h e =
    let ended =
      yylex-Returns u host target steps (suc (length input))
        (record { gdb = gdb_init_data arm; buffer = [] }) input h (omega arith) in
    subst Returns e ended
