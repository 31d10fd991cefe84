-- ===== src/Wgctl/Age.antt =====
-- The age of a handshake as `parseWGCtlHandshakeAge` reads it from the printed text.
use polar_wg.Wgctl.Matches.{
  day, hour, quantities-age, minute, unit_seconds, amount_front, second, more_text, seconds_of,
  amount_text, age_text, pairs_of, unit_text, TimeUnit, text_size-append, Amount,
}
use mathlib.Core.Path.{subst}
use polar_wg.Dump.Readback.{trim_kept, IsField}
use polar_wg.Net.Chars.{free_of}
use Prim.Native.Char.{code}
use polar_wg.Wgctl.Fields.{handshake_age, age_from, text_size}
use polar_wg.Base.{
  trim_suffix, append_nil, inr, str_eq_iff, parse_decimal-itoa, inl, ltb, ◌^◌, Bool-cases, ◌<◌,
  str_eq, trim_space, ◌%◌, All, sym, is_space, append_assoc, itoa_not_empty, ap, itoa_digits,
  is_digit, is_empty, ◌∙◌, [], ◌+◌, arith, ◌*◌, itoa, false, ◌≡◌, true, append, made_of, ◌∷◌, Bool,
  ℕ, List, String, some, refl,
}

-- What the walk over the matches adds up, in 64 bits.
abbrev AllSmall : List Amount → Type 0
AllSmall l = All (λ (a : Amount). a.count < 2 ^ 63) l

mod_sum : (t p s : ℕ) → ((t + p) % 2 ^ 64 + s) % 2 ^ 64 ≡ (t + (p + s)) % 2 ^ 64
mod_sum t p s = omega arith

age_from-pairs_of :
    (l : List Amount) (total : ℕ)
    → AllSmall l
    → total < 2 ^ 64
    → age_from total (pairs_of l) ≡ (total + seconds_of l) % 2 ^ 64
unfolding age_from
age_from-pairs_of [] total h k = omega arith
age_from-pairs_of (a ∷ l) total h k =
    let small : ltb a.count (2 ^ 63) ≡ true = ground (arith, h.0) in
    rw (age_from, parse_decimal-itoa a.count, small)
      (age_from-pairs_of l ((total + a.count * unit_seconds a.unit) % 2 ^ 64) h.1 (omega arith)
        ∙ mod_sum total (a.count * unit_seconds a.unit) (seconds_of l))

digit_no_space : (c : ℕ) → is_digit c ≡ true → is_space c ≡ false
unfolding is_space
digit_no_space c h = ground arith

digits_no_space : (s : String) → made_of is_digit s ≡ true → free_of is_space s ≡ true
digits_no_space String.[] h = refl
digits_no_space (String.◌∷◌ c s) h = ground (arith, digits_no_space s, digit_no_space (code c))

unit_IsField : (u : TimeUnit) (has_s : Bool) → IsField (unit_text u has_s)
unfolding is_space
unit_IsField second true = (refl, refl)
unit_IsField second false = (refl, refl)
unit_IsField minute true = (refl, refl)
unit_IsField minute false = (refl, refl)
unit_IsField hour true = (refl, refl)
unit_IsField hour false = (refl, refl)
unit_IsField day true = (refl, refl)
unit_IsField day false = (refl, refl)

-- The word at the end, and the text before it.
abbrev last_word : Amount → List Amount → String
last_word a [] = unit_text a.unit a.has_s
last_word a (b ∷ rest) = last_word b rest

abbrev before_word : Amount → List Amount → String
before_word a [] = append (itoa a.count) " "
before_word a (b ∷ rest) = append (amount_text a) (append ", " (before_word b rest))

last_word_IsField : (a : Amount) (rest : List Amount) → IsField (last_word a rest)
last_word_IsField a [] = unit_IsField a.unit a.has_s
last_word_IsField a (b ∷ rest) = last_word_IsField b rest

ends_in_word :
    (a : Amount) (rest : List Amount)
    → append (amount_text a) (more_text rest) ≡ append (before_word a rest) (last_word a rest)
ends_in_word a [] =
    append_nil (amount_text a) ∙ sym (append_assoc (itoa a.count) " " (unit_text a.unit a.has_s))
ends_in_word a (b ∷ rest) =
    ap (λ t. append (amount_text a) (append ", " t)) (ends_in_word b rest)
    ∙ sym (append_assoc (amount_text a) (append ", " (before_word b rest)) (last_word b rest))

trim-age :
    (a : Amount) (rest : List Amount)
    → trim_space (append (amount_text a) (more_text rest)) ≡ append (amount_text a) (more_text rest)
trim-age a rest =
    trim_kept (itoa a.count) _ _ (before_word a rest) (last_word a rest)
      (amount_front a (more_text rest)) (ends_in_word a rest)
      (digits_no_space (itoa a.count) (itoa_digits a.count), itoa_not_empty a.count)
      (last_word_IsField a rest)

str_eq_size : (s t : String) → text_size t < text_size s → str_eq s t ≡ false
str_eq_size s t h = elim (Bool-cases (str_eq s t)) [
  | inl e ↦ absurd (ground (arith, ap text_size ((str_eq_iff s t).0 e)))
  | inr e ↦ e
]

trim_suffix-append : (t : String) → trim_suffix " ago" (append t " ago") ≡ t
unfolding trim_suffix
trim_suffix-append String.[] = refl
trim_suffix-append (String.◌∷◌ c t) =
    rw
      (str_eq_size (String.◌∷◌ c (append t " ago")) " ago"
        (ground (arith, text_size-append t " ago")))
      (ap (String.◌∷◌ c) (trim_suffix-append t))

abbrev first_digit : String → Bool
first_digit String.[] = false
first_digit (String.◌∷◌ c s) = is_digit (code c)

first_digit-append :
    (s t : String)
    → made_of is_digit s ≡ true
    → is_empty s ≡ false
    → first_digit (append s t) ≡ true
first_digit-append String.[] t h e = cc
first_digit-append (String.◌∷◌ c s) t h e = ground arith

-- A text that begins with a digit is none of the words that stand for an age.
not_word :
    (s word : String) → first_digit s ≡ true → first_digit word ≡ false → str_eq s word ≡ false
not_word s word h k = elim (Bool-cases (str_eq s word)) [
  | inl e ↦ absurd (ground (arith, ap first_digit ((str_eq_iff s word).0 e)))
  | inr e ↦ e
]

first_not_empty : (s : String) → first_digit s ≡ true → is_empty s ≡ false
first_not_empty String.[] h = cc
first_not_empty (String.◌∷◌ c s) h = refl

-- The age of a handshake that is printed as one or more amounts of seconds, minutes, hours or
-- days, in singular or plural, with commas between them and ago behind them, is read back as the
-- sum of their seconds modulo 2 ^ 64, where each number is below 2 ^ 63.
pub handshake_age-age_text :
    (a : Amount) (rest : List Amount)
    → All (λ (b : Amount). b.count < 2 ^ 63) (a ∷ rest)
    → handshake_age (age_text a rest) ≡ some (seconds_of (a ∷ rest) % 2 ^ 64)
unfolding handshake_age
handshake_age-age_text a rest small =
    let s = append (amount_text a) (more_text rest) in
    let first : first_digit s ≡ true =
      subst (λ x. first_digit x ≡ true) (sym (amount_front a (more_text rest)))
        (first_digit-append (itoa a.count) _ (itoa_digits a.count) (itoa_not_empty a.count)) in
    rw
      (
        trim_suffix-append s,
        trim-age a rest,
        first_not_empty s first,
        not_word s "never" first refl,
        not_word s "now" first refl,
        quantities-age a rest,
      )
      (ap some (
        age_from-pairs_of (a ∷ rest) 0 small (omega arith)
        ∙ ap (λ (n : ℕ). n % 2 ^ 64) (omega arith)))
