-- ===== src/Wgctl/Fields.antt =====
-- The fields of wgctl's output: `transferUnitToBytes`, `parseWGCtlBytes`, `parseWGCtlHandshakeAge`,
-- `parseWGCtlKeepalive` and `parseWGCtlTransfer` of internal/wg/hub_local_wgctl.go. The three regular
-- expressions are read at each place of a text, from the left; their parts share no character, so a
-- match at a place is one run after the other. An int64 is its bit pattern, below 2 ^ 64.
use polar_wg.Dump.{int_or_zero, fields_from}
use Prim.Native.Char.{code}
use polar_wg.Base.{
  trim_suffix, ◌%◌, ◌*◌, zero, append, ltb, ◌+◌, ◌&&◌, leb, not, is_digit, ◌-◌, parse_decimal, ◌^◌,
  ◌||◌, ◌==◌, Bool, ◌∷◌, trim_left, trim_space, is_empty, [], suc, str_eq, is_some, List, Option,
  String, ℕ, if◌then◌else◌, none, some,
}

-- \s of a regular expression
abbrev pub is_blank : ℕ → Bool
is_blank c = c == 9 || c == 10 || c == 12 || c == 13 || c == 32

-- \w
abbrev pub is_word : ℕ → Bool
is_word c = is_digit c || (leb b'A' c && leb c b'Z') || (leb b'a' c && leb c b'z') || c == b'_'

-- [0-9.]
abbrev pub is_decimal : ℕ → Bool
is_decimal c = is_digit c || c == b'.'

abbrev pub text_size : String → ℕ
text_size String.[] = 0
text_size (String.◌∷◌ c s) = suc (text_size s)

-- The text behind a prefix: strings.HasPrefix with strings.TrimPrefix.
unfoldable pub strip_prefix : String → String → Option String
strip_prefix String.[] s = some s
strip_prefix (String.◌∷◌ c p) String.[] = none
strip_prefix (String.◌∷◌ c p) (String.◌∷◌ d s) =
    let rest = strip_prefix p s in if code c == code d then rest else none

-- The longest run in front; the text behind it is `trim_left` of the same test.
unfoldable pub run_of : (ℕ → Bool) → String → String
run_of p String.[] = String.[]
run_of p (String.◌∷◌ c s) =
    let rest = run_of p s in if p (code c) then String.◌∷◌ c rest else String.[]

unfoldable pub unit_bytes : String → Option ℕ
unit_bytes s =
    if str_eq s "B"
    then some 1
    else if str_eq s "KiB"
    then some (2 ^ 10)
    else if str_eq s "MiB"
    then some (2 ^ 20)
    else if str_eq s "GiB"
    then some (2 ^ 30)
    else if str_eq s "TiB"
    then some (2 ^ 40)
    else none

-- (\d+)\s+(seconds?|minutes?|hours?|days?) at one place: the digits, the seconds of the unit, and
-- how many characters are matched.
pub record Quantity : Type 0 where
  pub digits : String
  pub per : ℕ
  pub width : ℕ

abbrev pub plural : ℕ → String → ℕ
plural n rest = if is_some (strip_prefix "s" rest) then suc n else n

unfoldable pub unit_word : String → Option (ℕ × ℕ)
unfolding strip_prefix
unit_word s = elim (strip_prefix "second" s) [
  | some r ↦ some (1, plural 6 r)
  | none ↦ elim (strip_prefix "minute" s) [
    | some r ↦ some (60, plural 6 r)
    | none ↦ elim (strip_prefix "hour" s) [
      | some r ↦ some (3600, plural 4 r)
      | none ↦ elim (strip_prefix "day" s) [ some r ↦ some (86400, plural 3 r) | none ↦ none ]
    ]
  ]
]

abbrev pub with_unit : String → String → Option (ℕ × ℕ) → Option Quantity
with_unit ds blanks none = none
with_unit ds blanks (some (per, n)) =
    if is_empty ds || is_empty blanks
    then none
    else some (record { digits = ds; per = per; width = text_size ds + (text_size blanks + n) })

unfoldable pub quantity_at : String → Option Quantity
quantity_at s =
    let rest = trim_left is_digit s in
    with_unit (run_of is_digit s) (run_of is_blank rest) (unit_word (trim_left is_blank rest))

-- FindAllStringSubmatch: the first argument counts the characters of a match that are still passed.
unfoldable pub quantities : ℕ → String → List (String × ℕ)
quantities n String.[] = []
quantities (suc n) (String.◌∷◌ c s) = quantities n s
quantities zero (String.◌∷◌ c s) = elim (quantity_at (String.◌∷◌ c s)) [
  | none ↦ quantities zero s
  | some q ↦ (q.digits, q.per) ∷ quantities (q.width - 1) s
]

-- The loop over the matches; a number that is too large for an int64 is passed over.
unfoldable pub age_from : ℕ → List (String × ℕ) → ℕ
age_from total [] = total
age_from total ((ds, per) ∷ matches) = elim (parse_decimal ds) [
  | none ↦ age_from total matches
  | some n ↦ age_from (if ltb n (2 ^ 63) then (total + n * per) % 2 ^ 64 else total) matches
]

abbrev pub age_of : List (String × ℕ) → Option ℕ
age_of [] = none
age_of (q ∷ qs) = some (age_from 0 (q ∷ qs))

-- parseWGCtlHandshakeAge
unfoldable pub handshake_age : String → Option ℕ
handshake_age text =
    let s = trim_space (trim_suffix " ago" text) in
    if is_empty s || str_eq s "never"
    then none
    else if str_eq s "now"
    then some 0
    else age_of (quantities 0 s)

-- every\s+(\d+)\s+seconds? at one place
unfoldable pub keepalive_at : String → Option String
unfolding strip_prefix
keepalive_at s = elim (strip_prefix "every" s) [
  | none ↦ none
  | some r ↦
      let number = trim_left is_blank r in
      let behind = trim_left is_digit number in
      if (is_empty (run_of is_blank r) || is_empty (run_of is_digit number))
        || (is_empty (run_of is_blank behind)
            || not (is_some (strip_prefix "second" (trim_left is_blank behind))))
      then none
      else some (run_of is_digit number)
]

-- FindStringSubmatch of it
unfoldable pub keepalive_in : String → Option String
keepalive_in String.[] = none
keepalive_in (String.◌∷◌ c s) = elim (keepalive_at (String.◌∷◌ c s)) [
  | some ds ↦ some ds
  | none ↦ keepalive_in s
]

-- parseWGCtlKeepalive
unfoldable pub keepalive_seconds : String → ℕ
keepalive_seconds text =
    let s = trim_space text in
    if is_empty s || (str_eq s "off" || str_eq s "(none)")
    then 0
    else elim (keepalive_in s) [ none ↦ 0 | some ds ↦ int_or_zero ds ]

-- [0-9.]+\s+\w+ at one place, with the text behind it
unfoldable pub amount_at : String → Option (String × String)
amount_at s =
    let behind = trim_left is_decimal s in
    let word = trim_left is_blank behind in
    if is_empty (run_of is_decimal s)
      || (is_empty (run_of is_blank behind) || is_empty (run_of is_word word))
    then none
    else some (
      append (run_of is_decimal s) (append (run_of is_blank behind) (run_of is_word word)),
      trim_left is_word word,
    )

-- \s+ and a word, with the text behind them
unfoldable pub blank_then : String → String → Option String
unfolding strip_prefix
blank_then word s =
    if is_empty (run_of is_blank s) then none else strip_prefix word (trim_left is_blank s)

abbrev pub sent_at : String → Option (String × String) → Option (String × String)
sent_at received none = none
sent_at received (some (sent, rest)) = elim (blank_then "sent" rest) [
  | none ↦ none
  | some r ↦ some (received, sent)
]

-- ([0-9.]+\s+\w+)\s+received,\s+([0-9.]+\s+\w+)\s+sent at one place
unfoldable pub transfer_at : String → Option (String × String)
unfolding amount_at blank_then
transfer_at s = elim (amount_at s) [
  | none ↦ none
  | some (received, rest) ↦ elim (blank_then "received," rest) [
    | none ↦ none
    | some r ↦
        if is_empty (run_of is_blank r)
        then none
        else sent_at received (amount_at (trim_left is_blank r))
  ]
]

unfoldable pub transfer_in : String → Option (String × String)
transfer_in String.[] = none
transfer_in (String.◌∷◌ c s) = elim (transfer_at (String.◌∷◌ c s)) [
  | some found ↦ some found
  | none ↦ transfer_in s
]

-- int64(f * float64(mult)) for the number f that strconv.ParseFloat reads, if it reads one.
abbrev pub Scaled : Type 0
Scaled = String → ℕ → Option ℕ

abbrev bytes_of : Scaled → List String → Option ℕ
bytes_of scaled (number ∷ unit ∷ []) = elim (unit_bytes unit) [
  | none ↦ none
  | some mult ↦ scaled number mult
]
bytes_of scaled _ = none

-- parseWGCtlBytes
unfoldable pub parse_bytes : Scaled → String → Option ℕ
unfolding unit_bytes
parse_bytes scaled s = bytes_of scaled (fields_from "" (trim_space s))

abbrev pub or_zero : Option ℕ → ℕ
or_zero none = 0
or_zero (some n) = n

-- parseWGCtlTransfer: what one of the two amounts does not give counts as 0.
unfoldable pub parse_transfer : Scaled → String → Option (ℕ × ℕ)
parse_transfer scaled s = elim (transfer_in (trim_space s)) [
  | none ↦ none
  | some (received, sent) ↦
      let rx = parse_bytes scaled received in
      let tx = parse_bytes scaled sent in
      if not (is_some rx) && not (is_some tx) then none else some (or_zero rx, or_zero tx)
]
