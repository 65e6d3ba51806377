-- ===== src/Config/Text.antt =====
-- The C library functions that bridge/bridge_config.c reads its file with, over lists of bytes.
use Prim.Native.Char.{code}
use Prim.Native.String.{String}
use webos_bridge_64to.Common.{
  ℕ, zero, suc, ◌+◌, ◌-◌, ◌*◌, ◌^◌, ◌/◌, ◌%◌, ◌++◌, Bool, true, false, not, ◌&&◌, ◌||◌, Option,
  none, some, List, [], ◌∷◌, ltb, leb, ◌==◌, if◌then◌else◌, min,
}
use webos_bridge_64to.Common.Int.{ℤ, pos, negsuc}

abbrev pub Bytes : Type 0
Bytes = List ℕ

-- `isspace` in the C locale: space, and the five controls from tab to carriage return.
unfoldable pub isspace : ℕ → Bool
isspace c = c == b' ' || (leb 9 c && leb c 13)

unfoldable pub isdigit : ℕ → Bool
isdigit c = leb b'0' c && leb c b'9'

-- `fgets(line, n + 1, f)`: at most `n` bytes, up to and with the first newline; and what is left.
unfoldable pub fgets : ℕ → Bytes → Bytes × Bytes
fgets zero bs = ([], bs)
fgets (suc n) [] = ([], [])
fgets (suc n) (b ∷ bs) =
    let rest = fgets n bs in if b == 10 then (b ∷ [], bs) else (b ∷ rest.0, rest.1)

-- A buffer read as a string ends at its first zero byte.
unfoldable pub c_string : Bytes → Bytes
c_string [] = []
c_string (b ∷ bs) = let rest = c_string bs in if b == 0 then [] else b ∷ rest

-- `while (isspace(*p)) p++`
unfoldable pub skip_space : Bytes → Bytes
skip_space [] = []
skip_space (b ∷ bs) = let rest = skip_space bs in if isspace b then rest else b ∷ bs

-- `%n[^=]`: at most `n` bytes other than `=`, and what is left.
unfoldable pub scan_key : ℕ → Bytes → Bytes × Bytes
scan_key zero bs = ([], bs)
scan_key (suc n) [] = ([], [])
scan_key (suc n) (b ∷ bs) =
    let rest = scan_key n bs in if b == b'=' then ([], b ∷ bs) else (b ∷ rest.0, rest.1)

-- The digits at the head, as a number in base 10, with the digits read before them.
unfoldable pub scan_digits : ℕ → Bytes → ℕ
scan_digits acc [] = acc
scan_digits acc (b ∷ bs) =
    let rest = scan_digits (acc * 10 + (b - b'0')) bs in if isdigit b then rest else acc

unfoldable pub starts_with_digit : Bytes → Bool
starts_with_digit [] = false
starts_with_digit (b ∷ bs) = isdigit b

-- -n
unfoldable pub negated : ℕ → ℤ
negated n = if n == 0 then pos 0 else negsuc (n - 1)

-- `%ld`: space is skipped, a sign is optional, one digit is needed. `long` has `w` bits; a number
-- out of its range gives the nearest bound, as `strtol` does.
unfoldable pub scan_magnitude : ℕ → Bool → Bytes → Option ℤ
scan_magnitude w negative bs =
    if not (starts_with_digit bs)
    then none
    else if negative
    then some (negated (min (scan_digits 0 bs) (2 ^ (w - 1))))
    else some (pos (min (scan_digits 0 bs) (2 ^ (w - 1) - 1)))

unfoldable pub scan_signed : ℕ → Bytes → Option ℤ
scan_signed w [] = none
scan_signed w (b ∷ bs) =
    if b == b'-'
    then scan_magnitude w true bs
    else if b == b'+'
    then scan_magnitude w false bs
    else scan_magnitude w false (b ∷ bs)

unfoldable pub scan_long : ℕ → Bytes → Option ℤ
scan_long w bs = scan_signed w (skip_space bs)

unfoldable pub same_bytes : Bytes → Bytes → Bool
same_bytes [] [] = true
same_bytes [] (b ∷ bs) = false
same_bytes (a ∷ more) [] = false
same_bytes (a ∷ more) (b ∷ bs) = a == b && same_bytes more bs

-- The code points of a text: its bytes, where it is ASCII.
abbrev pub codes : String → Bytes
codes String.[] = []
codes (String.◌∷◌ c s) = code c ∷ codes s

-- `%u`, with a bound on the number of digits (a `uint32_t` has ten at most).
unfoldable pub decimal_digits : ℕ → ℕ → Bytes → Bytes
decimal_digits zero n acc = acc
decimal_digits (suc fuel) n acc =
    let rest = decimal_digits fuel (n / 10) ((b'0' + n % 10) ∷ acc) in
    if ltb n 10 then (b'0' + n) ∷ acc else rest

unfoldable pub decimal : ℕ → Bytes
decimal n = decimal_digits 10 n []

-- Each line with its newline.
unfoldable pub unlines : List Bytes → Bytes
unlines [] = []
unlines (l ∷ ls) = l ++ 10 ∷ unlines ls
