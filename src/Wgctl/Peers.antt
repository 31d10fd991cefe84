-- ===== src/Wgctl/Peers.antt =====
-- The loop over the lines of `wgctl show` against its description by header lines.
use mathlib.Core.List.{append-nil, [], append_assoc}
use polar_wg.Wgctl.{
  ok, empty_wgctl, err, parse_wgctl_show, show_peers, opened, peer_field, on_line, flushed, flush,
  walk, CtlPeer,
}
use polar_wg.Base.{
  length, split, ◌∙◌, cut, Bool-cases, false, ◌++◌, true, trim_space, ◌≡◌, is_some, ◌∷◌, Option,
  List, is_empty, Bool, String, ℕ, if◌then◌else◌, none, some, inl, inr, refl,
}
use polar_wg.Wgctl.Fields.{strip_prefix, Scaled}
use mathlib.Core.Path.{sym, ap}

abbrev pub is_header : String → Bool
is_header line = is_some (strip_prefix "peer #" line)

header_not_empty : (s : String) → is_header s ≡ true → is_empty s ≡ false
unfolding strip_prefix
header_not_empty String.[] h = cc
header_not_empty (String.◌∷◌ c s) h = refl

module _ (scaled : Scaled) (now : ℕ) where
  -- A peer with the fields of the lines up to the next header.
  abbrev pub fields_until : CtlPeer → List String → CtlPeer
  fields_until p [] = p
  fields_until p (raw ∷ lines) =
      let line = trim_space raw in
      if is_header line
      then p
      else fields_until (if is_empty line then p else peer_field scaled now p line) lines

  abbrev pub with_block : Option CtlPeer → List String → List CtlPeer → List CtlPeer
  with_block none lines rest = rest
  with_block (some p) lines rest = fields_until p lines ∷ rest

  -- The peers of the header lines, each with the lines behind it.
  abbrev pub peers_by_header : List String → List CtlPeer
  peers_by_header [] = []
  peers_by_header (raw ∷ lines) =
      let rest = peers_by_header lines in
      if is_header (trim_space raw)
      then with_block (opened (cut b':' (trim_space raw))) lines rest
      else rest

  abbrev Reads : List CtlPeer → Option CtlPeer → List String → Type 0
  Reads peers current lines =
      (flush (walk scaled now (record { peers = peers; current = current }) lines)).peers
      ≡ peers ++ with_block current lines (peers_by_header lines)

  flushed-append :
      (peers : List CtlPeer) (current : Option CtlPeer) (raw : String) (lines : List String)
      (tail : List CtlPeer)
      → is_header (trim_space raw) ≡ true
      → flushed peers current ++ tail ≡ peers ++ with_block current (raw ∷ lines) tail
  flushed-append peers none raw lines tail h = refl
  flushed-append peers (some p) raw lines tail h = rw h (append_assoc peers (p ∷ []) tail)

  -- What the loop's body does with a line that opens no peer.
  abbrev kept : Option CtlPeer → String → Option CtlPeer
  kept none line = none
  kept (some p) line = some (if is_empty line then p else peer_field scaled now p line)

  on_line_header :
      (peers : List CtlPeer) (current : Option CtlPeer) (raw : String)
      → is_empty (trim_space raw) ≡ false
      → is_header (trim_space raw) ≡ true
      → on_line scaled now (record { peers = peers; current = current }) raw
        ≡ record { peers = flushed peers current; current = opened (cut b':' (trim_space raw)) }
  unfolding on_line flush
  on_line_header peers current raw e h = rw (e, h) refl

  on_line-kept :
      (peers : List CtlPeer) (current : Option CtlPeer) (raw : String)
      → is_header (trim_space raw) ≡ false
      → on_line scaled now (record { peers = peers; current = current }) raw
        ≡ record { peers = peers; current = kept current (trim_space raw) }
  unfolding on_line
  on_line-kept peers none raw h = elim (Bool-cases (is_empty (trim_space raw))) [
    | inl e ↦ rw e refl
    | inr e ↦ rw (e, h) refl
  ]
  on_line-kept peers (some p) raw h = elim (Bool-cases (is_empty (trim_space raw))) [
    | inl e ↦ rw e refl
    | inr e ↦ rw (e, h) refl
  ]

  with_block-kept :
      (current : Option CtlPeer) (raw : String) (lines : List String) (tail : List CtlPeer)
      → is_header (trim_space raw) ≡ false
      → with_block (kept current (trim_space raw)) lines tail
        ≡ with_block current (raw ∷ lines) tail
  with_block-kept none raw lines tail h = refl
  with_block-kept (some p) raw lines tail h = rw h refl

  walk-Reads :
      (lines : List String) (peers : List CtlPeer) (current : Option CtlPeer)
      → Reads peers current lines
  unfolding walk flush
  walk-Reads [] peers none = sym (append-nil peers)
  walk-Reads [] peers (some p) = refl
  walk-Reads (raw ∷ lines) peers current = elim (Bool-cases (is_header (trim_space raw))) [
    | inl h ↦
        ap (λ w. (flush (walk scaled now w lines)).peers)
          (on_line_header peers current raw (header_not_empty (trim_space raw) h) h)
        ∙ walk-Reads lines (flushed peers current) (opened (cut b':' (trim_space raw)))
        ∙ flushed-append peers current raw lines _ h
        ∙ rw h refl
    | inr h ↦
        ap (λ w. (flush (walk scaled now w lines)).peers) (on_line-kept peers current raw h)
        ∙ walk-Reads lines peers (kept current (trim_space raw))
        ∙ ap (λ l. peers ++ l) (with_block-kept current raw lines (peers_by_header lines) h)
        ∙ rw h refl
  ]

  show_peers-peers_by_header :
      (lines : List String) → show_peers scaled now lines ≡ peers_by_header lines
  unfolding show_peers
  show_peers-peers_by_header lines = walk-Reads lines [] none

  -- An output of wgctl that is blank is refused. Any other gives the peers of its header lines
  -- that have a colon, in their order and counted: each has the text behind the header's first
  -- colon, trimmed, as its key, and what the lines behind it, up to the next header line, set.
  -- The sample carries the given interface, key and time, the port 0 and no mark.
  pub parse_wgctl_show-peers_by_header :
      (iface key raw : String)
      → parse_wgctl_show scaled now iface key raw ≡ (
          let peers = peers_by_header (split b'\n' raw) in
          if is_empty (trim_space raw)
          then err empty_wgctl
          else ok (record {
            iface = iface;
            iface_public_key = key;
            listen_port = 0;
            fwmark = "";
            peer_count = length peers;
            sampled_at = now;
            peers = peers;
          }))
  unfolding parse_wgctl_show
  parse_wgctl_show-peers_by_header iface key raw =
      rw (show_peers-peers_by_header (split b'\n' raw)) refl
