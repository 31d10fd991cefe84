-- ===== src/Wgctl.antt =====
-- The output of `wgctl show <iface>`: `parseWGCtlShow` of internal/wg/hub_local_wgctl.go. Its fields are
-- in Fields.
pub mod Fields
pub mod Peers
pub mod Matches
pub mod Age
use polar_wg.Dump.{unless}
use polar_wg.Wgctl.Fields.{keepalive_seconds, parse_transfer, handshake_age, Scaled, strip_prefix}
use polar_wg.Base.{
  ◌%◌, cut, length, is_some, ◌-◌, split, is_empty, ◌^◌, ◌+◌, trim_space, ◌∷◌, ◌++◌, List, ℕ, [],
  Option, String, if◌then◌else◌, none, some,
}
use polar_wg.Errors.{empty_wgctl, Result, err, ok}

-- A peer of the sample; the map's keys that a line may set are fields with `none`.
pub record CtlPeer : Type 0 where
  pub public_key : String
  pub endpoint : String
  pub allowed_ips : String
  pub bytes_rx : ℕ
  pub bytes_tx : ℕ
  pub handshake_age_sec : Option ℕ
  pub latest_handshake_unix : Option ℕ
  pub keepalive_sec : Option ℕ

-- parsedDump of parseWGCtlShow; listen_port is 0 and fwmark empty.
pub record CtlDump : Type 0 where
  pub iface : String
  pub iface_public_key : String
  pub listen_port : ℕ
  pub fwmark : String
  pub peer_count : ℕ
  pub sampled_at : ℕ
  pub peers : List CtlPeer

-- The variables of the loop: peers and curPeer.
pub record Walk : Type 0 where
  pub peers : List CtlPeer
  pub current : Option CtlPeer

abbrev pub new_peer : String → CtlPeer
new_peer key = record {
  public_key = key;
  endpoint = "";
  allowed_ips = "";
  bytes_rx = 0;
  bytes_tx = 0;
  handshake_age_sec = none;
  latest_handshake_unix = none;
  keepalive_sec = none;
}

abbrev pub flushed : List CtlPeer → Option CtlPeer → List CtlPeer
flushed peers none = peers
flushed peers (some p) = peers ++ p ∷ []

-- flush
unfoldable pub flush : Walk → Walk
flush w = record { peers = flushed w.peers w.current; current = none }

-- now.Unix() - age, in 64 bits
abbrev pub unix_before : ℕ → ℕ → ℕ
unix_before now age = (now + 2 ^ 64 - age) % 2 ^ 64

abbrev with_handshake : ℕ → CtlPeer → Option ℕ → CtlPeer
with_handshake now p none = p
with_handshake now p (some age) = record p {
  handshake_age_sec = some age;
  latest_handshake_unix = some (unix_before now age);
}

abbrev with_transfer : CtlPeer → Option (ℕ × ℕ) → CtlPeer
with_transfer p none = p
with_transfer p (some (rx, tx)) = record p { bytes_rx = rx; bytes_tx = tx }

-- The switch over a line of a peer.
unfoldable pub peer_field : Scaled → ℕ → CtlPeer → String → CtlPeer
unfolding strip_prefix
peer_field scaled now p line = elim (strip_prefix "endpoint:" line) [
  | some v ↦ record p { endpoint = unless "(none)" (trim_space v) }
  | none ↦ elim (strip_prefix "allowed ips:" line) [
    | some v ↦ record p { allowed_ips = trim_space v }
    | none ↦ elim (strip_prefix "latest handshake:" line) [
      | some v ↦ with_handshake now p (handshake_age (trim_space v))
      | none ↦ elim (strip_prefix "transfer:" line) [
        | some v ↦ with_transfer p (parse_transfer scaled v)
        | none ↦ elim (strip_prefix "persistent keepalive:" line) [
          | some v ↦ record p { keepalive_sec = some (keepalive_seconds (trim_space v)) }
          | none ↦ p
        ]
      ]
    ]
  ]
]

-- A header after the flush: the peer that it opens, if it has a colon.
abbrev pub opened : Option (String × String) → Option CtlPeer
opened none = none
opened (some (number, key)) = some (new_peer (trim_space key))

-- The body of the loop.
unfoldable pub on_line : Scaled → ℕ → Walk → String → Walk
unfolding strip_prefix flush
on_line scaled now w raw =
    let line = trim_space raw in
    if is_empty line
    then w
    else if is_some (strip_prefix "peer #" line)
    then record (flush w) { current = opened (cut b':' line) }
    else elim w.current [
      | none ↦ w
      | some p ↦ record w { current = some (peer_field scaled now p line) }
    ]

unfoldable pub walk : Scaled → ℕ → Walk → List String → Walk
walk scaled now w [] = w
walk scaled now w (line ∷ lines) = walk scaled now (on_line scaled now w line) lines

abbrev pub walk_start : Walk
walk_start = record { peers = []; current = none }

unfoldable pub show_peers : Scaled → ℕ → List String → List CtlPeer
unfolding flush
show_peers scaled now lines = (flush (walk scaled now walk_start lines)).peers

-- parseWGCtlShow
unfoldable pub parse_wgctl_show : Scaled → ℕ → String → String → String → Result CtlDump
parse_wgctl_show scaled now iface key raw =
    let peers = show_peers scaled now (split b'\n' raw) in
    if is_empty (trim_space raw)
    then err empty_wgctl
    else ok (record {
      iface = iface;
      iface_public_key = key;
      listen_port = 0;
      fwmark = "";
      peer_count = length peers;
      sampled_at = now;
      peers = peers;
    })
