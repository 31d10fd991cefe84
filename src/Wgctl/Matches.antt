-- ===== src/Wgctl/Matches.antt =====
-- An age printed as wgctl prints it ("1 minutes, 22 seconds ago"), and the matches that
-- `handshakeUnitRe` of internal/wg/hub_local_wgctl.go has in it.
use polar_wg.Net.Chars.{is_empty-append}
use Prim.Native.Char.{Char, code}
use polar_wg.Wgctl.Fields.{
  with_unit, Quantity, quantity_at, is_blank, text_size, unit_word, strip_prefix, run_of,
  quantities,
}
use polar_wg.Base.{
  append_assoc, itoa_not_empty, none, ◌-◌, ap, itoa_digits, is_digit, is_empty, ◌∙◌, Option, [],
  ◌+◌, not, arith, ◌*◌, zero, itoa, false, ◌≡◌, true, append, made_of, ◌∷◌, Bool, ℕ, List, String,
  trim_left, some, refl,
}

pub data TimeUnit : Type 0 where
  second minute hour day : TimeUnit

-- The word of a unit, with or without the s of the plural.
abbrev pub unit_text : TimeUnit → Bool → String
unit_text second false = "second"
unit_text second true = "seconds"
unit_text minute false = "minute"
unit_text minute true = "minutes"
unit_text hour false = "hour"
unit_text hour true = "hours"
unit_text day false = "day"
unit_text day true = "days"

abbrev pub unit_seconds : TimeUnit → ℕ
unit_seconds second = 1
unit_seconds minute = 60
unit_seconds hour = 3600
unit_seconds day = 86400

-- A number of a unit.
pub record Amount : Type 0 where
  pub count : ℕ
  pub unit : TimeUnit
  pub has_s : Bool

abbrev pub amount_text : Amount → String
amount_text a = append (itoa a.count) (append " " (unit_text a.unit a.has_s))

-- The amounts of a list behind the first, each with a comma before it.
abbrev pub more_text : List Amount → String
more_text [] = ""
more_text (a ∷ rest) = append ", " (append (amount_text a) (more_text rest))

abbrev pub age_text : Amount → List Amount → String
age_text a rest = append (append (amount_text a) (more_text rest)) " ago"

abbrev pub seconds_of : List Amount → ℕ
seconds_of [] = 0
seconds_of (a ∷ rest) = a.count * unit_seconds a.unit + seconds_of rest

-- A run ends where a character fails the test.
abbrev ends_run : (ℕ → Bool) → String → Bool
ends_run p String.[] = true
ends_run p (String.◌∷◌ c s) = not (p (code c))

run_of-append :
    (p : ℕ → Bool) (s t : String)
    → made_of p s ≡ true
    → ends_run p t ≡ true
    → run_of p (append s t) ≡ s
unfolding run_of
run_of-append p String.[] String.[] h k = refl
run_of-append p String.[] (String.◌∷◌ c t) h k = ground arith
run_of-append p (String.◌∷◌ c s) t h k = ground (arith, run_of-append p s t)

trim_left-append :
    (p : ℕ → Bool) (s t : String)
    → made_of p s ≡ true
    → ends_run p t ≡ true
    → trim_left p (append s t) ≡ t
unfolding trim_left
trim_left-append p String.[] String.[] h k = refl
trim_left-append p String.[] (String.◌∷◌ c t) h k = ground arith
trim_left-append p (String.◌∷◌ c s) t h k = ground (arith, trim_left-append p s t)

quantities_skip : (s t : String) → quantities (text_size s) (append s t) ≡ quantities zero t
unfolding quantities
quantities_skip String.[] String.[] = refl
quantities_skip String.[] (String.◌∷◌ c t) = refl
quantities_skip (String.◌∷◌ c s) t = quantities_skip s t

pub text_size-append : (s t : String) → text_size (append s t) ≡ text_size s + text_size t
text_size-append String.[] t = omega arith
text_size-append (String.◌∷◌ c s) t = ground (arith, text_size-append s t)

unit_word-unit_text :
    (u : TimeUnit) (has_s : Bool) (rest : List Amount)
    → unit_word (append (unit_text u has_s) (more_text rest))
      ≡ some (unit_seconds u, text_size (unit_text u has_s))
unfolding unit_word strip_prefix
unit_word-unit_text second true rest = refl
unit_word-unit_text second false [] = refl
unit_word-unit_text second false (a ∷ rest) = refl
unit_word-unit_text minute true rest = refl
unit_word-unit_text minute false [] = refl
unit_word-unit_text minute false (a ∷ rest) = refl
unit_word-unit_text hour true rest = refl
unit_word-unit_text hour false [] = refl
unit_word-unit_text hour false (a ∷ rest) = refl
unit_word-unit_text day true rest = refl
unit_word-unit_text day false [] = refl
unit_word-unit_text day false (a ∷ rest) = refl

blank_ends :
    (u : TimeUnit) (has_s : Bool) (t : String)
    → ends_run is_blank (append (unit_text u has_s) t) ≡ true
blank_ends second true t = refl
blank_ends second false t = refl
blank_ends minute true t = refl
blank_ends minute false t = refl
blank_ends hour true t = refl
blank_ends hour false t = refl
blank_ends day true t = refl
blank_ends day false t = refl

no_digits : (blanks : String) (o : Option (ℕ × ℕ)) → with_unit "" blanks o ≡ none
no_digits blanks none = refl
no_digits blanks (some (per, n)) = refl

-- The front of an amount as the expression reads it: digits, a blank, and the word.
pub amount_front :
    (a : Amount) (t : String)
    → append (amount_text a) t
      ≡ append (itoa a.count) (append " " (append (unit_text a.unit a.has_s) t))
amount_front a t = append_assoc (itoa a.count) (append " " (unit_text a.unit a.has_s)) t

abbrev quantity_of : Amount → Quantity
quantity_of a = record {
  digits = itoa a.count;
  per = unit_seconds a.unit;
  width = text_size (itoa a.count) + (1 + text_size (unit_text a.unit a.has_s));
}

module _ (a : Amount) (rest : List Amount) where
  abbrev behind : String
  behind = append " " (append (unit_text a.unit a.has_s) (more_text rest))

  read_digits : run_of is_digit (append (itoa a.count) behind) ≡ itoa a.count
  read_digits = run_of-append is_digit (itoa a.count) behind (itoa_digits a.count) refl

  left_of_digits : trim_left is_digit (append (itoa a.count) behind) ≡ behind
  left_of_digits = trim_left-append is_digit (itoa a.count) behind (itoa_digits a.count) refl

  quantity_at-amount_text :
      quantity_at (append (amount_text a) (more_text rest)) ≡ some (quantity_of a)
  unfolding quantity_at
  quantity_at-amount_text =
      ap quantity_at (amount_front a (more_text rest))
      ∙ rw (read_digits, left_of_digits)
          (rw
            (
              run_of-append is_blank " " (append (unit_text a.unit a.has_s) (more_text rest)) refl
                  (blank_ends a.unit a.has_s (more_text rest)),
              trim_left-append is_blank " " (append (unit_text a.unit a.has_s) (more_text rest))
                  refl (blank_ends a.unit a.has_s (more_text rest)),
              unit_word-unit_text a.unit a.has_s rest,
              itoa_not_empty a.count,
            )
            refl)

-- A match of the whole of a text in front is followed by the matches behind it.
quantities_match :
    (x t : String) (q : Quantity)
    → is_empty x ≡ false
    → quantity_at (append x t) ≡ some q
    → q.width ≡ text_size x
    → quantities zero (append x t) ≡ (q.digits, q.per) ∷ quantities zero t
unfolding quantities
quantities_match String.[] t q n e w = cc
quantities_match (String.◌∷◌ c x) t q n e w =
    rw (quantities, e)
      (ap (λ (k : ℕ). (q.digits, q.per) ∷ quantities (k - 1) (append x t)) w
        ∙ ap (λ l. (q.digits, q.per) ∷ l)
            (ap (λ (k : ℕ). quantities k (append x t)) (omega arith) ∙ quantities_skip x t))

abbrev pub pairs_of : List Amount → List (String × ℕ)
pairs_of [] = []
pairs_of (a ∷ rest) = (itoa a.count, unit_seconds a.unit) ∷ pairs_of rest

amount_not_empty : (a : Amount) → is_empty (amount_text a) ≡ false
amount_not_empty a = is_empty-append (itoa a.count) _ (itoa_not_empty a.count)

amount_size : (a : Amount) → (quantity_of a).width ≡ text_size (amount_text a)
amount_size a =
    ground (arith, text_size-append (itoa a.count) (append " " (unit_text a.unit a.has_s)))

no_match : (c : Char) (s : String) → is_digit (code c) ≡ false → quantity_at (String.◌∷◌ c s) ≡ none
unfolding quantity_at run_of trim_left
no_match c s h =
    rw h (
      no_digits (run_of is_blank (String.◌∷◌ c s))
        (unit_word (trim_left is_blank (String.◌∷◌ c s))))

-- No match begins with a character that is no digit.
quantities_pass :
    (c : Char) (s : String)
    → is_digit (code c) ≡ false
    → quantities zero (String.◌∷◌ c s) ≡ quantities zero s
unfolding quantities
quantities_pass c s h = rw (quantities, no_match c s h) refl

pub quantities-age :
    (a : Amount) (rest : List Amount)
    → quantities zero (append (amount_text a) (more_text rest)) ≡ pairs_of (a ∷ rest)
unfolding quantities
quantities-age a [] =
    quantities_match (amount_text a) "" (quantity_of a) (amount_not_empty a)
      (quantity_at-amount_text a []) (amount_size a)
quantities-age a (b ∷ rest) =
    quantities_match (amount_text a) (more_text (b ∷ rest)) (quantity_of a) (amount_not_empty a)
      (quantity_at-amount_text a (b ∷ rest)) (amount_size a)
    ∙ ap (λ l. (itoa a.count, unit_seconds a.unit) ∷ l)
        (quantities_pass _ _ refl ∙ quantities_pass _ _ refl ∙ quantities-age b rest)
