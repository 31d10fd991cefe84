-- ===== src/Base/Letters.antt =====
-- More of Go's `strings`, and of its 64-bit durations: lower case, trimming of a set of characters,
-- prefixes and suffixes, `time.Duration(n) * unit`.
use Prim.Native.Char.{Char, code}
use Prim.Native.Nat.{ℕ, zero, suc, ◌+◌, ◌-◌, ◌*◌, ◌%◌, ◌^◌}
use Prim.Native.String.{String}
use mathlib.Core.Bool.{Bool, ◌&&◌}
use text.Mathlib.Text.{◌==◌ as str_eq}
use polar_wg.Base.Tests.{leb, ◌==◌, if◌then◌else◌}
use polar_wg.Base.Text.{trim_left, trim_right}

-- The n-th character, or the given one.
unfoldable pub char_at : Char → ℕ → String → Char
char_at c n String.[] = c
char_at c zero (String.◌∷◌ d s) = d
char_at c (suc n) (String.◌∷◌ d s) = char_at c n s

-- unicode.ToLower where the result is an ASCII letter: of A to Z, and of the two letters beyond ASCII
-- whose lower case is i and k. All other characters are left as they are.
unfoldable pub lower_char : Char → Char
lower_char c =
    let n = code c in
    if leb b'A' n && leb n b'Z'
    then char_at c (n - b'A') "abcdefghijklmnopqrstuvwxyz"
    else if n == 0x130
    then char_at c 0 "i"
    else if n == 0x212a
    then char_at c 0 "k"
    else c

-- strings.ToLower
unfoldable pub to_lower : String → String
to_lower String.[] = String.[]
to_lower (String.◌∷◌ c s) = String.◌∷◌ (lower_char c) (to_lower s)

-- strings.Trim, of the characters that pass a test.
unfoldable pub trim : (ℕ → Bool) → String → String
trim p s = trim_right p (trim_left p s)

-- s[:n] of a text of ASCII
unfoldable pub prefix : ℕ → String → String
prefix zero s = String.[]
prefix (suc n) String.[] = String.[]
prefix (suc n) (String.◌∷◌ c s) = String.◌∷◌ c (prefix n s)

-- strings.TrimSuffix, for a suffix that is not empty
unfoldable pub trim_suffix : String → String → String
trim_suffix suffix String.[] = String.[]
trim_suffix suffix (String.◌∷◌ c s) =
    let rest = trim_suffix suffix s in
    if str_eq (String.◌∷◌ c s) suffix then String.[] else String.◌∷◌ c rest

-- time.Duration(n) * unit, in 64 bits and two's complement.
unfoldable pub duration : ℕ → ℕ → ℕ
duration n unit = n * unit % 2 ^ 64

abbrev pub is_negative : ℕ → Bool
is_negative d = leb (2 ^ 63) d

-- t.Add(d); a time before the epoch is taken for the epoch.
unfoldable pub time_add : ℕ → ℕ → ℕ
time_add t d = if is_negative d then t - (2 ^ 64 - d) else t + d
