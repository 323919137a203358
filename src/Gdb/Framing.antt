-- ===== src/Gdb/Framing.antt =====
-- What the analysis of a request makes of a framed text.
use projet_s5_prog.Base.{ℕ, suc, ◌+◌, ◌%◌, ◌^◌, ◌<◌, ◌≡◌, ◌≢◌, arith, refl}
use projet_s5_prog.Base.{Bool, List, [], ◌∷◌, ◌++◌, length, ◌∙◌, ap}
use projet_s5_prog.Base.{◌==◌, if◌then◌else◌, take, drop, ==_refl, ==_ne}
use projet_s5_prog.Base.Scan.{two_hex}
use projet_s5_prog.Util.{Undefined}
use projet_s5_prog.Gdb.Hex.{scan_hex-two_hex}
use projet_s5_prog.Gdb.State.{Gdb, served, checksum, framed, gdb_send_ack}
use projet_s5_prog.Gdb.State.{gdb_require_retransmission}
use projet_s5_prog.Gdb.Packet.{handle, gdb_packet_analysis, hash_place}

pub length-append : (s t : List ℕ) → length (s ++ t) ≡ length s + length t
length-append [] t = omega arith
length-append (c ∷ s) t = omega (arith, length-append s t)

take-append : (s t : List ℕ) → take (length s) (s ++ t) ≡ s
take-append [] t = refl
take-append (c ∷ s) t = ap (λ (r : List ℕ). c ∷ r) (take-append s t)

drop-append : (s t : List ℕ) → drop (length s) (s ++ t) ≡ t
drop-append [] t = refl
drop-append (c ∷ s) t = drop-append s t

-- the sum in an `unsigned char`, beside the plain sum
abbrev pub sum : List ℕ → ℕ
sum [] = 0
sum (c ∷ s) = c + sum s

checksum-sum : (k : ℕ) (s : List ℕ) → k < 256 → checksum k s ≡ (k + sum s) % 2 ^ 8
unfolding checksum
checksum-sum k [] h = omega arith
checksum-sum k (c ∷ s) h = omega (arith, checksum-sum ((k + c) % 2 ^ 8) s (omega arith))

sum-append : (s t : List ℕ) → sum (s ++ t) ≡ sum s + sum t
sum-append [] t = omega arith
sum-append (c ∷ s) t = omega (arith, sum-append s t)

pub checksum-lt : (s : List ℕ) → checksum 0 s < 256
checksum-lt s = omega (arith, checksum-sum 0 s (omega arith))

two_more : (k : ℕ) → k + 2 ≡ suc (suc k)
two_more k = omega arith

three_more : (k : ℕ) → k + 2 + 1 ≡ suc (suc (k + 1))
three_more k = omega arith

one_over : (k : ℕ) → suc k + 1 ≡ suc (k + 1)
one_over k = omega arith

drop_one_more : (s t : List ℕ) (c : ℕ) → drop (length s + 1) (s ++ c ∷ t) ≡ t
drop_one_more [] t c = refl
drop_one_more (d ∷ s) t c = rw (one_over (length s)) (drop_one_more s t c)

-- a text with a sum of its own behind `#`
abbrev pub framed_with : ℕ → List ℕ → List ℕ
framed_with check text = b'$' ∷ (text ++ b'#' ∷ two_hex check)

module _ (check c : ℕ) (s : List ℕ) where
  place : hash_place (framed_with check (c ∷ s)) ≡ length s + 2
  place = ground (arith, length-append s (b'#' ∷ two_hex check))

  text_part : take (length s + 2) (framed_with check (c ∷ s)) ≡ b'$' ∷ c ∷ s
  text_part =
      rw (two_more (length s))
        (ap (λ (r : List ℕ). b'$' ∷ c ∷ r) (take-append s (b'#' ∷ two_hex check)))

  sum_part : drop (length s + 2 + 1) (framed_with check (c ∷ s)) ≡ two_hex check
  sum_part = rw (three_more (length s)) (drop_one_more s (two_hex check) b'#')

  -- with both parts, the analysis is the test of the sum, and the handling of the cut text
  pub analysis_framed :
      (u : Undefined) (host target : Bool) (fuel : ℕ) (gdb : Gdb)
      → check < 256
      → gdb_packet_analysis u host target fuel gdb (framed_with check (c ∷ s)) ≡ (
          if checksum 0 (c ∷ s) == check
          then handle u host target fuel (gdb_send_ack gdb) c (s ++ 0 ∷ (two_hex check ++ 0 ∷ []))
          else served (gdb_require_retransmission gdb))
  unfolding gdb_packet_analysis
  analysis_framed u host target fuel gdb small =
      rw (place, text_part, sum_part, scan_hex-two_hex check small) refl

-- A request in the frame that `gdb_send_buffer` puts around a text, and that is not empty, passes
-- the test of its sum: it is acknowledged and handled, with its first character as the letter of
-- the request and the others, up to a NUL, as its data.
pub analysis-framed :
    (u : Undefined) (host target : Bool) (fuel : ℕ) (gdb : Gdb) (c : ℕ) (s : List ℕ)
    → gdb_packet_analysis u host target fuel gdb (framed (c ∷ s))
      ≡ handle u host target fuel
          (gdb_send_ack gdb)
          c
          (s ++ 0 ∷ (two_hex (checksum 0 (c ∷ s)) ++ 0 ∷ []))
unfolding framed
analysis-framed u host target fuel gdb c s =
    analysis_framed (checksum 0 (c ∷ s)) c s u host target fuel gdb (checksum-lt (c ∷ s))
    ∙ rw (==_refl (checksum 0 (c ∷ s))) refl

sums_differ :
    (s t : List ℕ) (x y : ℕ)
    → x < 256
    → y < 256
    → x ≢ y
    → checksum 0 (s ++ y ∷ t) ≢ checksum 0 (s ++ x ∷ t)
sums_differ s t x y hx hy other = omega (
  arith,
  checksum-sum 0 (s ++ y ∷ t) (omega arith),
  checksum-sum 0 (s ++ x ∷ t) (omega arith),
  sum-append s (y ∷ t),
  sum-append s (x ∷ t),
)

-- A request in which one byte of the text arrived as another byte is refused: nothing but a request
-- for retransmission is sent, and the processor stays as it was.
pub analysis_corrupted :
    (u : Undefined) (host target : Bool) (fuel : ℕ) (gdb : Gdb) (s t : List ℕ) (x y : ℕ)
    → x < 256
    → y < 256
    → x ≢ y
    → gdb_packet_analysis u host target fuel gdb
        (framed_with (checksum 0 (s ++ x ∷ t)) (s ++ y ∷ t))
      ≡ served (gdb_require_retransmission gdb)
analysis_corrupted u host target fuel gdb [] t x y hx hy other =
    analysis_framed (checksum 0 (x ∷ t)) y t u host target fuel gdb (checksum-lt (x ∷ t))
    ∙ rw (==_ne _ _ (sums_differ [] t x y hx hy other)) refl
analysis_corrupted u host target fuel gdb (c ∷ s) t x y hx hy other =
    analysis_framed (checksum 0 (c ∷ s ++ x ∷ t)) c (s ++ y ∷ t) u host target fuel gdb
      (checksum-lt (c ∷ s ++ x ∷ t))
    ∙ rw (==_ne _ _ (sums_differ (c ∷ s) t x y hx hy other)) refl
