-- ===== src/Dump/Print.antt =====
-- A dump as a text of lines, and the lines read back from it.
use polar_wg.Net.Chars.{split_last, contains_char-append, is_empty-append}
use polar_wg.Dump.Readback.{
  peer_rows-row_line, sample_of, trim_kept, no_tab, split_tab, ends_in, row_line, AllRows, IsRow,
  tabbed, Row, no_newline, IsField,
}
use polar_wg.Dump.{unless, int_or_zero, ok, is_newline, parse_wg_show_dump}
use polar_wg.Base.{
  arith, ◌∙◌, [], append, map, trim_space, false, All, ◌∷◌, Bool, ◌≡◌, ℕ, List, String, is_empty,
  trim_right, split, contains_char, refl,
}
use mathlib.Core.Path.{subst, sym, ap}

abbrev pub lines_text : List String → String
lines_text [] = ""
lines_text (l ∷ ls) = append l (append "\n" (lines_text ls))

-- A line that is printed: it is not empty and has no line break.
abbrev pub IsLine : String → Type 0
IsLine l = (contains_char b'\n' l ≡ false) × (is_empty l ≡ false)

split_line :
    (s rest : String)
    → contains_char b'\n' s ≡ false
    → split b'\n' (append s (append "\n" rest)) ≡ s ∷ split b'\n' rest
unfolding split contains_char
split_line String.[] rest h = refl
split_line (String.◌∷◌ c s) rest h = ground (arith, split_line s rest)

trim_last : (s : String) → contains_char b'\n' s ≡ false → trim_right is_newline (append s "\n") ≡ s
unfolding trim_right contains_char
trim_last String.[] h = refl
trim_last (String.◌∷◌ c s) h = ground (arith, trim_last s)

trim_after :
    (p : ℕ → Bool) (s t : String)
    → is_empty (trim_right p t) ≡ false
    → (trim_right p (append s t) ≡ append s (trim_right p t))
      × (is_empty (append s (trim_right p t)) ≡ false)
unfolding trim_right
trim_after p String.[] t h = (refl, h)
trim_after p (String.◌∷◌ c s) t h =
    let rest = trim_after p s t h in (ground (arith, rest.0, rest.1), refl)

lines_back :
    (l : String) (ls : List String)
    → IsLine l
    → All IsLine ls
    → (split b'\n' (trim_right is_newline (lines_text (l ∷ ls))) ≡ l ∷ ls)
      × (is_empty (trim_right is_newline (lines_text (l ∷ ls))) ≡ false)
lines_back l [] h hs =
    (ap (split b'\n') (trim_last l h.0) ∙ split_last b'\n' l h.0, rw (trim_last l h.0) h.1)
lines_back l (m ∷ ls) h hs =
    let rest = lines_back m ls hs.0 hs.1 in
    let one = trim_after is_newline "\n" (lines_text (m ∷ ls)) rest.1 in
    let two : trim_right is_newline (append l (append "\n" (lines_text (m ∷ ls))))
        ≡ append l (trim_right is_newline (append "\n" (lines_text (m ∷ ls)))) =
      (trim_after is_newline l (append "\n" (lines_text (m ∷ ls)))
        (subst (λ (x : String). is_empty x ≡ false) (sym one.0) one.1)).0 in
    let all : trim_right is_newline (lines_text (l ∷ m ∷ ls))
        ≡ append l (append "\n" (trim_right is_newline (lines_text (m ∷ ls)))) =
      two ∙ ap (append l) one.0 in
    (
      ap (split b'\n') all
          ∙ split_line l (trim_right is_newline (lines_text (m ∷ ls))) h.0
          ∙ ap (λ x. l ∷ x) rest.0,
      subst (λ (x : String). is_empty x ≡ false) (sym all)
          (is_empty-append l (append "\n" (trim_right is_newline (lines_text (m ∷ ls)))) h.1),
    )

-- A row's line has no line break.
join_line :
    (s t : String)
    → contains_char b'\n' s ≡ false
    → contains_char b'\n' t ≡ false
    → contains_char b'\n' (tabbed s t) ≡ false
unfolding contains_char
join_line s t h k =
    contains_char-append b'\n' s (append "\t" t) h (contains_char-append b'\n' "\t" t tab_line k)
  where
    tab_line : contains_char b'\n' "\t" ≡ false
    tab_line = refl

row-IsLine : (r : Row) → IsRow r → IsLine (row_line r)
unfolding contains_char
row-IsLine r v = (
  join_line r.public_key _ (no_newline r.public_key v.public_key.0) (
      join_line r.preshared_key _ (no_newline r.preshared_key v.preshared_key.0) (
        join_line r.endpoint _ (no_newline r.endpoint v.endpoint.0) (
          join_line r.allowed_ips _ (no_newline r.allowed_ips v.allowed_ips.0) (
            join_line r.handshake _ (no_newline r.handshake v.handshake.0) (
              join_line r.rx _ (no_newline r.rx v.rx.0) (
                join_line r.tx _ (no_newline r.tx v.tx.0)
                  (no_newline r.keepalive v.keepalive.0))))))),
  is_empty-append r.public_key _ v.public_key.1,
)

-- The first line of a dump.
pub record Head : Type 0 where
  pub private_key : String
  pub public_key : String
  pub listen_port : String
  pub fwmark : String

pub record IsHead (h : Head) : Type 0 where
  pub private_key : IsField h.private_key
  pub public_key : IsField h.public_key
  pub listen_port : IsField h.listen_port
  pub fwmark : IsField h.fwmark

abbrev pub head_line : Head → String
head_line h = tabbed h.private_key (tabbed h.public_key (tabbed h.listen_port h.fwmark))

head-IsLine : (h : Head) → IsHead h → IsLine (head_line h)
unfolding contains_char
head-IsLine h v = (
  join_line h.private_key _ (no_newline h.private_key v.private_key.0) (
      join_line h.public_key _ (no_newline h.public_key v.public_key.0) (
        join_line h.listen_port _ (no_newline h.listen_port v.listen_port.0)
          (no_newline h.fwmark v.fwmark.0))),
  is_empty-append h.private_key _ v.private_key.1,
)

split-head_line :
    (h : Head)
    → IsHead h
    → split b'\t' (head_line h) ≡ h.private_key ∷ h.public_key ∷ h.listen_port ∷ h.fwmark ∷ []
split-head_line h v =
    rw
      (
        split_tab h.private_key _ (no_tab h.private_key v.private_key.0),
        split_tab h.public_key _ (no_tab h.public_key v.public_key.0),
        split_tab h.listen_port _ (no_tab h.listen_port v.listen_port.0),
        split_last b'\t' h.fwmark (no_tab h.fwmark v.fwmark.0),
      )
      refl

trim-head_line : (h : Head) → IsHead h → is_empty (trim_space (head_line h)) ≡ false
trim-head_line h v =
    subst (λ (x : String). is_empty x ≡ false) (sym kept)
      (is_empty-append h.private_key _ v.private_key.1)
  where
    start : String
    start = tabbed h.private_key (tabbed h.public_key (tabbed h.listen_port ""))

    ends : head_line h ≡ append start h.fwmark
    ends =
        ends_in h.private_key h.fwmark _ _
          (ends_in h.public_key h.fwmark _ _ (ends_in h.listen_port h.fwmark _ _ refl))

    kept : trim_space (head_line h) ≡ head_line h
    kept = trim_kept h.private_key _ (head_line h) start h.fwmark refl ends v.private_key v.fwmark

rows-IsLine : (rows : List Row) → AllRows rows → All IsLine (map row_line rows)
rows-IsLine [] v = tt
rows-IsLine (r ∷ rows) v = (row-IsLine r v.0, rows-IsLine rows v.1)

-- The text of a dump whose fields are not empty and have no white space, one line for the
-- interface and one for each peer, is read back with the interface's key, port and mark and one
-- sample for each peer, in order.
pub parse_wg_show_dump-printed :
    (now : ℕ) (iface : String) (h : Head) (rows : List Row)
    → IsHead h
    → AllRows rows
    → parse_wg_show_dump now iface (lines_text (head_line h ∷ map row_line rows))
      ≡ ok record {
        iface = iface;
        iface_public_key = h.public_key;
        listen_port = int_or_zero h.listen_port;
        fwmark = unless "off" h.fwmark;
        peers = map (sample_of now) rows;
      }
unfolding parse_wg_show_dump
parse_wg_show_dump-printed now iface h rows v vs =
    rw
      (
        (lines_back (head_line h) (map row_line rows) (head-IsLine h v) (rows-IsLine rows vs)).0,
        trim-head_line h v,
        split-head_line h v,
        peer_rows-row_line now rows vs,
      )
      refl
