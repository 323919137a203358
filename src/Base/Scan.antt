-- ===== src/Base/Scan.antt =====
-- Numbers in texts, as `sprintf`, `sscanf` and `atoi` write and read them.
use Prim.Native.Nat.{ℕ, zero, suc, ◌+◌, ◌-◌, ◌*◌, ◌/◌, ◌%◌, ◌^◌}
use mathlib.Core.List.{List, [], ◌∷◌}
use mathlib.Core.Option.{Option, none, some}
use mathlib.Core.Bool.{Bool, true, false, ◌&&◌, ◌||◌}
use projet_s5_prog.Base.Test.{◌==◌, ltb, if◌then◌else◌}
use projet_s5_prog.Base.Text.{length}

-- a hexadecimal digit in lower case, and `%02x` of a byte
abbrev pub hex_digit : ℕ → ℕ
hex_digit d = if ltb d 10 then b'0' + d else b'a' - 10 + d

abbrev pub two_hex : ℕ → List ℕ
two_hex b = hex_digit (b / 16) ∷ hex_digit (b % 16) ∷ []

abbrev pub between : ℕ → ℕ → ℕ → Bool
between low high c = not_below low c && not_below c high
  where
    not_below : ℕ → ℕ → Bool
    not_below a b = if ltb b a then false else true

unfoldable pub is_space : ℕ → Bool
is_space c = c == 32 || between 9 13 c

-- the value of a digit in base 16 or 10
unfoldable pub hex_value : ℕ → Option ℕ
hex_value c =
    if between b'0' b'9' c
    then some (c - b'0')
    else if between b'a' b'f' c
    then some (c - b'a' + 10)
    else if between b'A' b'F' c
    then some (c - b'A' + 10)
    else none

unfoldable pub decimal_value : ℕ → Option ℕ
decimal_value c = if between b'0' b'9' c then some (c - b'0') else none

-- at most `width` digits: their value behind that of the digits before them, and the rest
unfoldable pub digits : (ℕ → Option ℕ) → ℕ → ℕ → ℕ → List ℕ → ℕ × List ℕ
digits value base zero acc s = (acc, s)
digits value base (suc width) acc [] = (acc, [])
digits value base (suc width) acc (c ∷ s) = elim (value c) [
  | none ↦ (acc, c ∷ s)
  | some d ↦ digits value base width (acc * base + d) s
]

-- at least one digit
unfoldable pub number : (ℕ → Option ℕ) → ℕ → ℕ → List ℕ → Option (ℕ × List ℕ)
number value base zero s = none
number value base (suc width) [] = none
number value base (suc width) (c ∷ s) = elim (value c) [
  | none ↦ none
  | some d ↦ some (digits value base width d s)
]

-- with the optional `0x`
abbrev pub prefixed : ℕ → List ℕ → Option (ℕ × List ℕ)
prefixed (suc (suc width)) (c ∷ x ∷ s) =
    if (c == b'0') && (x == b'x' || x == b'X')
    then number hex_value 16 width s
    else number hex_value 16 (suc (suc width)) (c ∷ x ∷ s)
prefixed width s = number hex_value 16 width s

-- `strtoul` on 64 bits, cut to 32, and its negative
unfoldable pub cut : ℕ → ℕ
cut v = if ltb v (2 ^ 64) then v % 2 ^ 32 else 2 ^ 32 - 1

abbrev pub negative : Option (ℕ × List ℕ) → Option (ℕ × List ℕ)
negative none = none
negative (some (v, s)) = some ((2 ^ 32 - cut v) % 2 ^ 32, s)

abbrev pub positive : Option (ℕ × List ℕ) → Option (ℕ × List ℕ)
positive none = none
positive (some (v, s)) = some (cut v, s)

abbrev pub signed_hex : ℕ → List ℕ → Option (ℕ × List ℕ)
signed_hex (suc width) (c ∷ s) =
    if c == b'-'
    then negative (prefixed width s)
    else if c == b'+'
    then positive (prefixed width s)
    else positive (prefixed (suc width) (c ∷ s))
signed_hex width s = none

unfoldable pub skip_space : List ℕ → List ℕ
skip_space [] = []
skip_space (c ∷ s) = if is_space c then skip_space s else c ∷ s

-- `%2x`, with its width, and `%x`, with none: the value of the conversion and the text behind it
unfoldable pub scan_width : ℕ → List ℕ → Option (ℕ × List ℕ)
scan_width width s = signed_hex width (skip_space s)

unfoldable pub scan_hex : List ℕ → Option (ℕ × List ℕ)
scan_hex s = scan_width (length s) s

-- the argument of `%x`, left as it is where nothing matches
abbrev pub or_keep : ℕ → Option (ℕ × List ℕ) → ℕ
or_keep old none = old
or_keep old (some (v, s)) = v

-- `atoi`, as a 32-bit pattern
abbrev pub decimal : List ℕ → ℕ
decimal s = or_keep 0 (number decimal_value 10 (length s) s)

abbrev pub signed_decimal : List ℕ → ℕ
signed_decimal [] = 0
signed_decimal (c ∷ s) =
    if c == b'-'
    then (2 ^ 32 - decimal s % 2 ^ 32) % 2 ^ 32
    else if c == b'+'
    then decimal s % 2 ^ 32
    else decimal (c ∷ s) % 2 ^ 32

unfoldable pub atoi : List ℕ → ℕ
atoi s = signed_decimal (skip_space s)
