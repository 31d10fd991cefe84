-- ===== src/Base.antt =====
-- The names that the other modules share.
mod Tests
mod Text
mod Lists
mod Letters
mod Numerals
pub use Tests.*
pub use Lists.*
pub use Numerals.{
  made_of, parse_decimal-itoa, itoa_digits, itoa_not_empty, append_assoc, append_nil,
}
unfoldable pub use Text.{
  is_space, byte_len, trim_left, trim_right, trim_space, contains_char, cut, split, itoa, itoa_fuel,
  parse_decimal,
}
unfoldable pub use Letters.{
  char_at, lower_char, to_lower, trim, trim_suffix, prefix, duration, time_add,
}
pub use Letters.{is_negative}
pub use Text.{append, into_first, digit, is_digit}
pub use Prim.Native.Nat.{ℕ, zero, suc, ◌+◌, ◌-◌, ◌*◌, ◌/◌, ◌%◌, ◌^◌, ◌≤◌, ◌<◌}
pub use Prim.Native.String.{String}
pub use mathlib.Core.Path.{◌≡◌, refl, sym, ap, ◌∙◌}
pub use mathlib.Core.Logic.{◌≢◌, ◌↔◌, ◌⊎◌, inl, inr}
pub use mathlib.Core.Bool.{Bool, true, false, not, ◌&&◌, ◌||◌}
pub use mathlib.Core.Option.{Option, none, some}
pub use mathlib.Core.List.{List, [], ◌∷◌, ◌++◌, map, append-nil}
pub use native.Mathlib.Omega.{arith}
pub use text.Mathlib.Text.{◌==◌ as str_eq}
pub use text.Mathlib.TextEquality.{eq_iff as str_eq_iff}
