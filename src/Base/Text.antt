-- ===== src/Base/Text.antt =====
-- Go's `strings`, `strconv` and `unicode` functions that the program calls, on native texts. Each is
-- a recursion over the characters, so it computes on a text whose front is known.
use Prim.Native.Char.{Char, code}
use Prim.Native.Nat.{ℕ, zero, suc, ◌+◌, ◌-◌, ◌*◌, ◌/◌, ◌%◌}
use Prim.Native.String.{String}
use mathlib.Core.Bool.{Bool, false, ◌&&◌, ◌||◌}
use mathlib.Core.Option.{Option, none, some}
use mathlib.Core.List.{List, [], ◌∷◌}
use polar_wg.Base.Tests.{ltb, leb, ◌==◌, if◌then◌else◌, is_empty}

-- s + t
abbrev pub append : String → String → String
append String.[] t = t
append (String.◌∷◌ c s) t = String.◌∷◌ c (append s t)

-- unicode.IsSpace on a code point.
unfoldable pub is_space : ℕ → Bool
is_space c =
    (leb 9 c && leb c 13)
    || c == 32
    || c == 0x85
    || c == 0xa0
    || c == 0x1680
    || (leb 0x2000 c && leb c 0x200a)
    || c == 0x2028
    || c == 0x2029
    || c == 0x202f
    || c == 0x205f
    || c == 0x3000

unfoldable pub trim_left : (ℕ → Bool) → String → String
trim_left p String.[] = String.[]
trim_left p (String.◌∷◌ c s) = if p (code c) then trim_left p s else String.◌∷◌ c s

unfoldable pub trim_right : (ℕ → Bool) → String → String
trim_right p String.[] = String.[]
trim_right p (String.◌∷◌ c s) =
    let rest = trim_right p s in
    if p (code c) && is_empty rest then String.[] else String.◌∷◌ c rest

-- strings.TrimSpace
unfoldable pub trim_space : String → String
trim_space s = trim_right is_space (trim_left is_space s)

-- strings.Contains(s, c) for one character
unfoldable pub contains_char : ℕ → String → Bool
contains_char k String.[] = false
contains_char k (String.◌∷◌ c s) = code c == k || contains_char k s

-- The text before the first `k` and the text after it, if there is one.
unfoldable pub cut : ℕ → String → Option (String × String)
cut k String.[] = none
cut k (String.◌∷◌ c s) =
    if code c == k
    then some (String.[], s)
    else elim (cut k s) [ none ↦ none | some (a, b) ↦ some (String.◌∷◌ c a, b) ]

-- The pieces that one more character in front of the first piece gives.
abbrev pub into_first : Char → List String → List String
into_first c [] = String.◌∷◌ c String.[] ∷ []
into_first c (p ∷ ps) = String.◌∷◌ c p ∷ ps

-- strings.Split(s, k)
unfoldable pub split : ℕ → String → List String
split k String.[] = String.[] ∷ []
split k (String.◌∷◌ c s) =
    let rest = split k s in if code c == k then String.[] ∷ rest else into_first c rest

abbrev pub digit : ℕ → String
digit n =
    if n == 0
    then "0"
    else if n == 1
    then "1"
    else if n == 2
    then "2"
    else if n == 3
    then "3"
    else if n == 4
    then "4"
    else if n == 5
    then "5"
    else if n == 6
    then "6"
    else if n == 7
    then "7"
    else if n == 8
    then "8"
    else "9"

unfoldable pub itoa_fuel : ℕ → ℕ → String
itoa_fuel zero n = "0"
itoa_fuel (suc f) n =
    let rest = append (itoa_fuel f (n / 10)) (digit (n % 10)) in if ltb n 10 then digit n else rest

-- strconv.Itoa on a number that is not negative; a number has fewer digits than its successor says.
unfoldable pub itoa : ℕ → String
unfolding itoa_fuel
itoa n = itoa_fuel (suc n) n

abbrev pub is_digit : ℕ → Bool
is_digit c = leb b'0' c && leb c b'9'

abbrev pub parse_digits : ℕ → String → Option ℕ
parse_digits n String.[] = some n
parse_digits n (String.◌∷◌ c s) =
    let d = code c in if is_digit d then parse_digits (n * 10 + (d - 48)) s else none

-- A decimal numeral with no sign.
unfoldable pub parse_decimal : String → Option ℕ
parse_decimal s = if is_empty s then none else parse_digits 0 s

-- The bytes of a character in UTF-8, and len(s) of the source, which counts bytes.
abbrev char_bytes : ℕ → ℕ
char_bytes k = if ltb k 128 then 1 else if ltb k 2048 then 2 else if ltb k 65536 then 3 else 4

unfoldable pub byte_len : String → ℕ
byte_len String.[] = 0
byte_len (String.◌∷◌ c s) = char_bytes (code c) + byte_len s
