-- ===== src/Dump/Readback.antt =====
-- What the parser reads back from a printed dump.
use polar_wg.Net.Chars.{trim_right_free, is_empty-append, free_of, split_last}
use polar_wg.Dump.{code, peer_sample, PeerSample, peer_rows}
use polar_wg.Base.{
  append_assoc, inl, inr, Bool-cases, ◌==◌, is_empty, [], true, arith, ◌∷◌, ◌∙◌, All, map, append,
  false, ◌≡◌, List, ℕ, String, trim_space, trim_right, trim_left, split, is_space, contains_char,
  refl,
}
use mathlib.Core.Path.{subst, sym, ap}

-- A row of eight fields.
pub record Row : Type 0 where
  pub public_key : String
  pub preshared_key : String
  pub endpoint : String
  pub allowed_ips : String
  pub handshake : String
  pub rx : String
  pub tx : String
  pub keepalive : String

abbrev pub tabbed : String → String → String
tabbed s t = append s (append "\t" t)

-- The line of a row, as `wg show <iface> dump` prints it.
abbrev pub row_line : Row → String
row_line r = tabbed r.public_key (
    tabbed r.preshared_key (
      tabbed r.endpoint
        (tabbed r.allowed_ips (tabbed r.handshake (tabbed r.rx (tabbed r.tx r.keepalive))))))

-- A field that is printed: there is no white space in it, and it is not empty.
abbrev pub IsField : String → Type 0
IsField s = (free_of is_space s ≡ true) × (is_empty s ≡ false)

pub record IsRow (r : Row) : Type 0 where
  pub public_key : IsField r.public_key
  pub preshared_key : IsField r.preshared_key
  pub endpoint : IsField r.endpoint
  pub allowed_ips : IsField r.allowed_ips
  pub handshake : IsField r.handshake
  pub rx : IsField r.rx
  pub tx : IsField r.tx
  pub keepalive : IsField r.keepalive

tab_is_space : is_space b'\t' ≡ true
unfolding is_space
tab_is_space = refl

newline_is_space : is_space b'\n' ≡ true
unfolding is_space
newline_is_space = refl

not_here : (k n : ℕ) → is_space k ≡ true → is_space n ≡ false → (n == k) ≡ false
not_here k n is h = elim (Bool-cases (n == k)) [
  | inr e ↦ e
  | inl e ↦
      let same : n ≡ k = ground arith in ground (arith, subst (λ m. is_space m ≡ false) same h)
]

-- A text without white space has no character of it.
not_in :
    (k : ℕ) (s : String) → is_space k ≡ true → free_of is_space s ≡ true → contains_char k s ≡ false
unfolding contains_char
not_in k String.[] is h = refl
not_in k (String.◌∷◌ c s) is h = ground (arith, not_in k s is, not_here k (code c) is)

pub no_tab : (s : String) → free_of is_space s ≡ true → contains_char b'\t' s ≡ false
no_tab s h = not_in b'\t' s tab_is_space h

pub no_newline : (s : String) → free_of is_space s ≡ true → contains_char b'\n' s ≡ false
no_newline s h = not_in b'\n' s newline_is_space h

pub split_tab :
    (s rest : String)
    → contains_char b'\t' s ≡ false
    → split b'\t' (tabbed s rest) ≡ s ∷ split b'\t' rest
unfolding split contains_char
split_tab String.[] rest h = refl
split_tab (String.◌∷◌ c s) rest h = ground (arith, split_tab s rest)

abbrev fields_of : Row → List String
fields_of r =
    r.public_key ∷ r.preshared_key ∷ r.endpoint ∷ r.allowed_ips ∷ r.handshake ∷ r.rx ∷ r.tx
    ∷ r.keepalive ∷ []

split-row_line : (r : Row) → IsRow r → split b'\t' (row_line r) ≡ fields_of r
split-row_line r v =
    rw
      (
        split_tab r.public_key _ (no_tab r.public_key v.public_key.0),
        split_tab r.preshared_key _ (no_tab r.preshared_key v.preshared_key.0),
        split_tab r.endpoint _ (no_tab r.endpoint v.endpoint.0),
        split_tab r.allowed_ips _ (no_tab r.allowed_ips v.allowed_ips.0),
        split_tab r.handshake _ (no_tab r.handshake v.handshake.0),
        split_tab r.rx _ (no_tab r.rx v.rx.0),
        split_tab r.tx _ (no_tab r.tx v.tx.0),
        split_last b'\t' r.keepalive (no_tab r.keepalive v.keepalive.0),
      )
      refl

-- Trimming leaves a text that starts and ends with no white space.
trim_right_kept :
    (s t : String)
    → free_of is_space t ≡ true
    → is_empty t ≡ false
    → trim_right is_space (append s t) ≡ append s t
unfolding trim_right
trim_right_kept String.[] t h k = trim_right_free is_space t h
trim_right_kept (String.◌∷◌ c s) t h k =
    let rest = trim_right_kept s t h k in rw rest (ground (arith, is_empty-append_right s t k))
  where
    is_empty-append_right : (s t : String) → is_empty t ≡ false → is_empty (append s t) ≡ false
    is_empty-append_right String.[] t h = h
    is_empty-append_right (String.◌∷◌ c s) t h = refl

trim_left_kept :
    (s t : String)
    → free_of is_space s ≡ true
    → is_empty s ≡ false
    → trim_left is_space (append s t) ≡ append s t
unfolding trim_left
trim_left_kept String.[] t h k = cc
trim_left_kept (String.◌∷◌ c s) t h k = ground arith

pub ends_in :
    (a b t : String) (before : String)
    → t ≡ append before b
    → tabbed a t ≡ append (tabbed a before) b
ends_in a b t before e = ap (tabbed a) e ∙ sym (append_assoc a (append "\t" before) b)

-- The part of the line before its last field.
abbrev row_start : Row → String
row_start r = tabbed r.public_key (
    tabbed r.preshared_key (
      tabbed r.endpoint (tabbed r.allowed_ips (tabbed r.handshake (tabbed r.rx (tabbed r.tx ""))))))

line_ends : (r : Row) → row_line r ≡ append (row_start r) r.keepalive
line_ends r = ends_in r.public_key r.keepalive _ _ (
    ends_in r.preshared_key r.keepalive _ _ (
      ends_in r.endpoint r.keepalive _ _ (
        ends_in r.allowed_ips r.keepalive _ _ (
          ends_in r.handshake r.keepalive _ _
            (ends_in r.rx r.keepalive _ _ (ends_in r.tx r.keepalive _ _ refl))))))

-- A text that starts and ends with a field is left as it is.
pub trim_kept :
    (a rest s start b : String)
    → s ≡ append a rest
    → s ≡ append start b
    → IsField a
    → IsField b
    → trim_space s ≡ s
unfolding trim_space
trim_kept a rest s start b front back f g =
    ap (λ x. trim_right is_space (trim_left is_space x)) front
    ∙ ap (trim_right is_space) (trim_left_kept a rest f.0 f.1 ∙ sym front ∙ back)
    ∙ trim_right_kept start b g.0 g.1
    ∙ sym back

trim-row_line : (r : Row) → IsRow r → trim_space (row_line r) ≡ row_line r
trim-row_line r v =
    trim_kept r.public_key _ (row_line r) (row_start r) r.keepalive refl (line_ends r) v.public_key
      v.keepalive

abbrev pub AllRows : List Row → Type 0
AllRows rows = All IsRow rows

abbrev pub sample_of : ℕ → Row → PeerSample
sample_of now r =
    peer_sample now r.public_key r.preshared_key r.endpoint r.allowed_ips r.handshake r.rx r.tx
      r.keepalive

pub peer_rows-row_line :
    (now : ℕ) (rows : List Row)
    → AllRows rows
    → peer_rows now (map row_line rows) ≡ map (sample_of now) rows
unfolding peer_rows
peer_rows-row_line now [] v = refl
peer_rows-row_line now (r ∷ rows) v =
    rw
      (
        trim-row_line r v.0,
        is_empty-append r.public_key (append "\t" _) v.0.public_key.1,
        split-row_line r v.0,
        peer_rows-row_line now rows v.1,
      )
      refl
