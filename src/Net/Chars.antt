-- ===== src/Net/Chars.antt =====
-- Splitting, cutting and trimming a text that is known by its parts.
use Prim.Native.Char.{code}
use polar_wg.Base.{
  ℕ, String, ◌≡◌, refl, ap, ◌∙◌, Bool, true, false, not, ◌&&◌, some, [], ◌∷◌, arith, is_empty,
  append, contains_char, cut, split, is_space, trim_left, trim_right, trim_space,
}

-- No character of the text passes the test.
abbrev pub free_of : (ℕ → Bool) → String → Bool
free_of p String.[] = true
free_of p (String.◌∷◌ c s) = not (p (code c)) && free_of p s

pub free_of-append :
    (p : ℕ → Bool) (s t : String)
    → free_of p s ≡ true
    → free_of p t ≡ true
    → free_of p (append s t) ≡ true
free_of-append p String.[] t h k = k
free_of-append p (String.◌∷◌ c s) t h k = ground (arith, free_of-append p s t)

pub is_empty-append : (s t : String) → is_empty s ≡ false → is_empty (append s t) ≡ false
is_empty-append String.[] t h = cc
is_empty-append (String.◌∷◌ c s) t h = refl

pub split_last : (k : ℕ) (s : String) → contains_char k s ≡ false → split k s ≡ s ∷ []
unfolding split contains_char
split_last k String.[] h = refl
split_last k (String.◌∷◌ c s) h = ground (arith, split_last k s)

-- The text before the first dot is the first piece.
pub split_dot :
    (s rest : String)
    → contains_char b'.' s ≡ false
    → split b'.' (append s (append "." rest)) ≡ s ∷ split b'.' rest
unfolding split contains_char
split_dot String.[] rest h = refl
split_dot (String.◌∷◌ c s) rest h = ground (arith, split_dot s rest)

pub cut-append :
    (k : ℕ) (s t rest : String)
    → contains_char k s ≡ false
    → cut k t ≡ some (String.[], rest)
    → cut k (append s t) ≡ some (s, rest)
unfolding cut contains_char
cut-append k String.[] t rest h e = e
cut-append k (String.◌∷◌ c s) t rest h e = ground (arith, cut-append k s t rest (ground arith) e)

pub contains_char-append :
    (k : ℕ) (s t : String)
    → contains_char k s ≡ false
    → contains_char k t ≡ false
    → contains_char k (append s t) ≡ false
unfolding contains_char
contains_char-append k String.[] t h e = e
contains_char-append k (String.◌∷◌ c s) t h e =
    ground (arith, contains_char-append k s t (ground arith) e)

pub trim_left_free : (p : ℕ → Bool) (s : String) → free_of p s ≡ true → trim_left p s ≡ s
unfolding trim_left
trim_left_free p String.[] h = refl
trim_left_free p (String.◌∷◌ c s) h = ground arith

pub trim_right_free : (p : ℕ → Bool) (s : String) → free_of p s ≡ true → trim_right p s ≡ s
unfolding trim_right
trim_right_free p String.[] h = refl
trim_right_free p (String.◌∷◌ c s) h = ground (arith, trim_right_free p s)

-- TrimSpace changes no text without white space.
pub trim_space_free : (s : String) → free_of is_space s ≡ true → trim_space s ≡ s
unfolding trim_space
trim_space_free s h =
    ap (trim_right is_space) (trim_left_free is_space s h) ∙ trim_right_free is_space s h
