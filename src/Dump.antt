-- ===== src/Dump.antt =====
-- The output of `wg show <iface> dump` and of the route tables: `parseWGShowDump` of
-- internal/wg/hub_local_self_poll.go and `normalizeRouteDst` of internal/wg/hub_local_routes.go.
pub mod Readback
pub mod Print
use Prim.Native.Char.{code}
use polar_wg.Net.{ipv4_text, parse_cidr, parse_ipv4, World}
use polar_wg.Errors.{require, empty_dump, short_interface_row, err, ok, Result, ◌>>=◌, ◌>>◌}
use polar_wg.Base.{
  ◌-◌, ◌^◌, trim_right, is_space, true, ltb, ◌||◌, cut, none, [], append, split, parse_decimal,
  str_eq, ◌&&◌, false, ◌∷◌, trim_space, some, is_empty, is_some, not, ◌==◌, ℕ, String, Option, List,
  Bool, if◌then◌else◌,
}

abbrev unsigned : String → String
unsigned (String.◌∷◌ c s) = if code c == 43 then s else String.◌∷◌ c s
unsigned String.[] = String.[]

-- strconv.ParseInt with its error dropped: 0 for no number, the nearest number for one that is too
-- large. A leading plus is read over. A number behind a minus, of which wg prints none, is taken as
-- 0, since the field is a natural number here.
unfoldable pub int_or_zero : String → ℕ
int_or_zero s = elim (parse_decimal (unsigned s)) [
  | none ↦ 0
  | some n ↦ if ltb n (2 ^ 63) then n else 2 ^ 63 - 1
]

pub record PeerSample : Type 0 where
  pub public_key : String
  pub has_preshared_key : Bool
  pub endpoint : String
  pub allowed_ips : String
  pub latest_handshake_unix : ℕ
  pub bytes_rx : ℕ
  pub bytes_tx : ℕ
  pub keepalive_sec : ℕ
  pub handshake_age_sec : Option ℕ

pub record Dump : Type 0 where
  pub iface : String
  pub iface_public_key : String
  pub listen_port : ℕ
  pub fwmark : String
  pub peers : List PeerSample

-- A sentinel of wg(8) as the empty text.
abbrev pub unless : String → String → String
unless sentinel s = if str_eq s sentinel then "" else s

abbrev pub peer_sample :
    ℕ → String → String → String → String → String → String → String → String → PeerSample
peer_sample now key psk endpoint ips handshake rx tx keepalive = record {
  public_key = key;
  has_preshared_key = not (str_eq psk "(none)") && not (is_empty psk);
  endpoint = unless "(none)" endpoint;
  allowed_ips = ips;
  latest_handshake_unix = int_or_zero handshake;
  bytes_rx = int_or_zero rx;
  bytes_tx = int_or_zero tx;
  keepalive_sec = if str_eq keepalive "off" then 0 else int_or_zero keepalive;
  handshake_age_sec = let t = int_or_zero handshake in if ltb 0 t then some (now - t) else none;
}

-- The fields of a peer's row; rows with fewer are skipped, further fields are not looked at.
abbrev pub peer_of : ℕ → List String → Option PeerSample
peer_of now (a ∷ b ∷ c ∷ d ∷ e ∷ f ∷ g ∷ h ∷ rest) = some (peer_sample now a b c d e f g h)
peer_of now _ = none

abbrev pub cons_some {ℓ} : {A : Type ℓ} → Option A → List A → List A
cons_some none xs = xs
cons_some (some x) xs = x ∷ xs

unfoldable pub peer_rows : ℕ → List String → List PeerSample
peer_rows now [] = []
peer_rows now (line ∷ lines) =
    let row = trim_space line in
    let rest = peer_rows now lines in
    if is_empty row then rest else cons_some (peer_of now (split b'\t' row)) rest

abbrev interface_row : String → List String → List PeerSample → Result Dump
interface_row iface (private_key ∷ public_key ∷ port ∷ fwmark ∷ rest) peers = ok record {
  iface = iface;
  iface_public_key = public_key;
  listen_port = int_or_zero port;
  fwmark = unless "off" fwmark;
  peers = peers;
}
interface_row iface _ peers = err short_interface_row

abbrev pub is_newline : ℕ → Bool
is_newline c = c == b'\n'

abbrev of_lines : ℕ → String → List String → Result Dump
of_lines now iface [] = err empty_dump
of_lines now iface (first ∷ lines) = do
  require (not (is_empty (trim_space first))) empty_dump
  interface_row iface (split b'\t' first) (peer_rows now lines)

-- parseWGShowDump
unfoldable pub parse_wg_show_dump : ℕ → String → String → Result Dump
parse_wg_show_dump now iface raw = of_lines now iface (split b'\n' (trim_right is_newline raw))

-- "0" for each octet that is missing of four.
unfoldable pub pad_octets : List String → List String
pad_octets (a ∷ b ∷ c ∷ d ∷ rest) = a ∷ b ∷ c ∷ d ∷ rest
pad_octets (a ∷ b ∷ c ∷ []) = a ∷ b ∷ c ∷ "0" ∷ []
pad_octets (a ∷ b ∷ []) = a ∷ b ∷ "0" ∷ "0" ∷ []
pad_octets (a ∷ []) = a ∷ "0" ∷ "0" ∷ "0" ∷ []
pad_octets [] = "0" ∷ "0" ∷ "0" ∷ "0" ∷ []

-- strings.Join(xs, ".")
unfoldable pub join_dots : List String → String
join_dots [] = ""
join_dots (x ∷ []) = x
join_dots (x ∷ y ∷ xs) = append x (append "." (join_dots (y ∷ xs)))

abbrev pub is_cidr : World → String → Bool
is_cidr w s = is_some (parse_cidr w s)

abbrev pub padded : World → String → Option (String × String) → String
padded w s none = elim (parse_ipv4 s) [ none ↦ "" | some ip ↦ append (ipv4_text ip) "/32" ]
padded w s (some (host, mask)) =
    let p = append (join_dots (pad_octets (split b'.' host))) (append "/" mask) in
    if not (is_empty host) && is_cidr w p then p else ""

-- normalizeRouteDst. An address in the IPv6 form of an IPv4 address is taken for no address.
unfoldable pub normalize_route_dst : World → String → String
normalize_route_dst w text =
    let s = trim_space text in
    if is_empty s
    then ""
    else if str_eq s "default"
    then "0.0.0.0/0"
    else if is_cidr w s
    then s
    else padded w s (cut b'/' s)

-- strings.Fields
unfoldable pub fields_from : String → String → List String
fields_from word String.[] = if is_empty word then [] else word ∷ []
fields_from word (String.◌∷◌ c s) =
    let rest = fields_from (if is_space (code c) then "" else append word (String.◌∷◌ c "")) s in
    if is_space (code c) && not (is_empty word) then word ∷ rest else rest

-- strings.HasSuffix(s, "/32")
unfoldable pub ends_with_32 : String → Bool
ends_with_32 String.[] = false
ends_with_32 (String.◌∷◌ c s) = str_eq (String.◌∷◌ c s) "/32" || ends_with_32 s

abbrev pub route_if : Bool → String → List String → List String
route_if take dst rest = if take && not (is_empty dst || ends_with_32 dst) then dst ∷ rest else rest

abbrev pub darwin_route : World → String → List String → List String → List String
darwin_route w iface (dst ∷ gateway ∷ flags ∷ netif ∷ more) rest =
    route_if (str_eq netif iface) (normalize_route_dst w dst) rest
darwin_route w iface _ rest = rest

-- The lines of `netstat -rn -f inet`, as collectIfaceRoutesDarwin reads them.
unfoldable pub darwin_routes : World → String → List String → List String
darwin_routes w iface [] = []
darwin_routes w iface (line ∷ lines) =
    darwin_route w iface (fields_from "" line) (darwin_routes w iface lines)

abbrev pub linux_route : World → List String → List String → List String
linux_route w [] rest = rest
linux_route w (dst ∷ more) rest = route_if true (normalize_route_dst w dst) rest

-- The lines of `ip -4 route show dev`, as collectIfaceRoutesLinux reads them.
unfoldable pub linux_routes : World → List String → List String
linux_routes w [] = []
linux_routes w (line ∷ lines) = linux_route w (fields_from "" line) (linux_routes w lines)
