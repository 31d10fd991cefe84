-- ===== src/Net/Octets.antt =====
-- The decimal text of an octet, checked for all 256 of them.
use polar_wg.Base.{
  ◌+◌, ◌≤◌, ℕ, zero, suc, String, ◌≡◌, refl, ◌<◌, Bool, true, false, not, ◌&&◌, Option, none, some,
  arith, is_empty, contains_char, itoa, parse_decimal, is_space, is_some_of,
}
use polar_wg.Net.{parse_octet, leading_zero}
use polar_wg.Net.Chars.{free_of}

-- The test on the `count` numbers from `start` on.
each_from : (ℕ → Bool) → ℕ → ℕ → Bool
each_from good start zero = true
each_from good start (suc count) = each_from good (start + 1) count && good start

each_from_lem :
    (good : ℕ → Bool) (count start m : ℕ)
    → start ≤ m
    → m < start + count
    → each_from good start count ≡ true
    → good m ≡ true
unfolding each_from
each_from_lem good zero start m low high e = absurd (omega arith)
each_from_lem good (suc count) start m low high e =
    ground (arith, each_from_lem good count (start + 1) m)

abbrev good_octet : ℕ → Bool
good_octet n =
    is_some_of (parse_octet (itoa n)) n
    && is_some_of (parse_decimal (itoa n)) n
    && not (contains_char b'.' (itoa n))
    && not (contains_char b'/' (itoa n))
    && free_of is_space (itoa n)
    && not (is_empty (itoa n))

octet_table : each_from good_octet 0 256 ≡ true
unfolding each_from itoa parse_octet contains_char is_space parse_decimal leading_zero
octet_table = refl

is_some_of-eq : (o : Option ℕ) (n : ℕ) → is_some_of o n ≡ true → o ≡ some n
is_some_of-eq none n h = cc
is_some_of-eq (some m) n h = ground arith

pub record OctetText (n : ℕ) (s : String) : Type 0 where
  pub parses : parse_octet s ≡ some n
  pub decimal : parse_decimal s ≡ some n
  pub no_dot : contains_char b'.' s ≡ false
  pub no_slash : contains_char b'/' s ≡ false
  pub no_space : free_of is_space s ≡ true
  pub not_empty : is_empty s ≡ false

pub itoa-OctetText : (n : ℕ) → n < 256 → OctetText n (itoa n)
itoa-OctetText n h =
    let good = each_from_lem good_octet 256 0 n (omega arith) (omega (arith, h)) octet_table in
    record {
      parses = is_some_of-eq _ n (ground arith);
      decimal = is_some_of-eq _ n (ground arith);
      no_dot = ground arith;
      no_slash = ground arith;
      no_space = ground arith;
      not_empty = ground arith;
    }
