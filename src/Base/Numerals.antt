-- ===== src/Base/Numerals.antt =====
-- The decimal text of a number of any size, read back.
use Prim.Native.Char.{code}
use Prim.Native.Nat.{ℕ, zero, suc, ◌+◌, ◌*◌, ◌/◌, ◌%◌, ◌≤◌, ◌<◌}
use Prim.Native.String.{String}
use mathlib.Core.Path.{◌≡◌, refl, ap, ◌∙◌, sym}
use mathlib.Core.Logic.{inl, inr}
use mathlib.Core.Bool.{Bool, true, false, ◌&&◌}
use mathlib.Core.Option.{some}
use native.Mathlib.Omega.{arith}
use polar_wg.Base.Tests.{Bool-cases, ltb, is_empty}
use polar_wg.Base.Text.{append, digit, is_digit, itoa, itoa_fuel, parse_decimal, parse_digits}

-- All characters of the text pass the test.
abbrev pub made_of : (ℕ → Bool) → String → Bool
made_of p String.[] = true
made_of p (String.◌∷◌ c s) = p (code c) && made_of p s

-- What holds of the ten digits, each at its value, holds of `digit`.
digit_cases {ℓ} :
    (P : ℕ → String → Type ℓ)
    → P 0 "0"
    → P 1 "1"
    → P 2 "2"
    → P 3 "3"
    → P 4 "4"
    → P 5 "5"
    → P 6 "6"
    → P 7 "7"
    → P 8 "8"
    → P 9 "9"
    → (d : ℕ) → d < 10
    → P d (digit d)
digit_cases P a b c d e f g h i j zero lt = a
digit_cases P a b c d e f g h i j (suc zero) lt = b
digit_cases P a b c d e f g h i j (suc (suc zero)) lt = c
digit_cases P a b c d e f g h i j (suc (suc (suc zero))) lt = d
digit_cases P a b c d e f g h i j (suc (suc (suc (suc zero)))) lt = e
digit_cases P a b c d e f g h i j (suc (suc (suc (suc (suc zero))))) lt = f
digit_cases P a b c d e f g h i j (suc (suc (suc (suc (suc (suc zero)))))) lt = g
digit_cases P a b c d e f g h i j (suc (suc (suc (suc (suc (suc (suc zero))))))) lt = h
digit_cases P a b c d e f g h i j (suc (suc (suc (suc (suc (suc (suc (suc zero)))))))) lt = i
digit_cases P a b c d e f g h i j (suc (suc (suc (suc (suc (suc (suc (suc (suc zero))))))))) lt = j
digit_cases P a b c d e f g h i j (suc (suc (suc (suc (suc (suc (suc (suc (suc (suc k)))))))))) lt =
    absurd (omega (arith, lt))

-- An empty text behind another.
pub append_nil : (s : String) → append s String.[] ≡ s
append_nil String.[] = refl
append_nil (String.◌∷◌ c s) = ap (String.◌∷◌ c) (append_nil s)

-- Appending texts is associative.
pub append_assoc : (s t u : String) → append (append s t) u ≡ append s (append t u)
append_assoc String.[] t u = refl
append_assoc (String.◌∷◌ c s) t u = ap (String.◌∷◌ c) (append_assoc s t u)

append_digits :
    (s t : String)
    → made_of is_digit s ≡ true
    → made_of is_digit t ≡ true
    → made_of is_digit (append s t) ≡ true
append_digits String.[] t h k = k
append_digits (String.◌∷◌ c s) t h k = ground (arith, append_digits s t)

append_not_empty : (s t : String) → is_empty s ≡ false → is_empty (append s t) ≡ false
append_not_empty String.[] t h = cc
append_not_empty (String.◌∷◌ c s) t h = refl

digit_digits : (d : ℕ) → d < 10 → made_of is_digit (digit d) ≡ true
digit_digits =
    digit_cases (λ d s. made_of is_digit s ≡ true) refl refl refl refl refl refl refl refl refl refl

digit_not_empty : (d : ℕ) → d < 10 → is_empty (digit d) ≡ false
digit_not_empty =
    digit_cases (λ d s. is_empty s ≡ false) refl refl refl refl refl refl refl refl refl refl

parse_digits-digit :
    (a : ℕ) (t : String) (d : ℕ)
    → d < 10
    → parse_digits a (append (digit d) t) ≡ parse_digits (a * 10 + d) t
parse_digits-digit a t =
    digit_cases (λ d s. parse_digits a (append s t) ≡ parse_digits (a * 10 + d) t) refl refl refl
      refl refl refl refl refl refl refl

itoa_fuel_digits : (f n : ℕ) → made_of is_digit (itoa_fuel f n) ≡ true
unfolding itoa_fuel
itoa_fuel_digits zero n = refl
itoa_fuel_digits (suc f) n = elim (Bool-cases (ltb n 10)) [
  | inl e ↦ rw e (digit_digits n (ground arith))
  | inr e ↦ rw e (
      append_digits (itoa_fuel f (n / 10)) (digit (n % 10)) (itoa_fuel_digits f (n / 10))
        (digit_digits (n % 10) (omega arith)))
]

pub itoa_digits : (n : ℕ) → made_of is_digit (itoa n) ≡ true
unfolding itoa
itoa_digits n = itoa_fuel_digits (suc n) n

itoa_fuel_not_empty : (f n : ℕ) → is_empty (itoa_fuel f n) ≡ false
unfolding itoa_fuel
itoa_fuel_not_empty zero n = refl
itoa_fuel_not_empty (suc f) n = elim (Bool-cases (ltb n 10)) [
  | inl e ↦ rw e (digit_not_empty n (ground arith))
  | inr e ↦
      rw e
        (append_not_empty (itoa_fuel f (n / 10)) (digit (n % 10)) (itoa_fuel_not_empty f (n / 10)))
]

pub itoa_not_empty : (n : ℕ) → is_empty (itoa n) ≡ false
unfolding itoa
itoa_not_empty n = itoa_fuel_not_empty (suc n) n

-- With as much fuel as the number says, all its digits are there.
parse_digits-itoa_fuel :
    (f n : ℕ) (t : String)
    → n ≤ f
    → parse_digits 0 (append (itoa_fuel (suc f) n) t) ≡ parse_digits n t
unfolding itoa_fuel
parse_digits-itoa_fuel zero n t h = let none_left : n ≡ 0 = omega (arith, h) in rw none_left refl
parse_digits-itoa_fuel (suc f) n t h = elim (Bool-cases (ltb n 10)) [
  | inl e ↦
      rw e
        (parse_digits-digit 0 t n (ground arith) ∙ ap (λ (m : ℕ). parse_digits m t) (omega arith))
  | inr e ↦ rw e (
      ap (parse_digits 0) (append_assoc (itoa_fuel (suc f) (n / 10)) (digit (n % 10)) t)
      ∙ parse_digits-itoa_fuel f (n / 10) (append (digit (n % 10)) t) (ground arith)
      ∙ parse_digits-digit (n / 10) t (n % 10) (omega arith)
      ∙ ap (λ (m : ℕ). parse_digits m t) (omega arith))
]

-- The decimal text of a number is read back as the number.
pub parse_decimal-itoa : (n : ℕ) → parse_decimal (itoa n) ≡ some n
unfolding parse_decimal itoa
parse_decimal-itoa n = rw (itoa_fuel_not_empty (suc n) n) (
    ap (parse_digits 0) (sym (append_nil (itoa_fuel (suc n) n)))
    ∙ parse_digits-itoa_fuel n n String.[] (omega arith))
