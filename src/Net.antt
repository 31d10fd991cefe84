-- ===== src/Net.antt =====
-- IPv4 networks: `meshNet`, `parseMeshCIDR`, `deviceIP`, `lanCIDRNetwork`, `firstLANCIDR` and
-- `extractPublicIP` of internal/wg/alloc.go, `cidrOverlaps` and `hubMeshNetwork` of handlers.go,
-- with what they use of Go's `net`. An address is a number below 2 ^ 32.
-- The IPv6 half of `net.ParseCIDR` is the parameter `ipv6_cidr`: the normalised text of a CIDR whose
-- address has no 4-byte form, if the text is one.

pub mod Chars
pub mod Octets
pub mod Print
pub mod Overlap
pub mod Devices
pub mod Parse
use Prim.Native.Char.{code}
use polar_wg.Base.{
  ℕ, ◌+◌, ◌-◌, ◌*◌, ◌/◌, ◌%◌, ◌^◌, String, Bool, false, ◌||◌, Option, none, some, List, [], ◌∷◌,
  ltb, leb, ◌==◌, if◌then◌else◌, is_empty, append, cut, split, itoa, parse_decimal, trim_space,
}
use polar_wg.Errors.{Result, ok, err, ◌>>=◌, or_fail, mesh_cidr_required, invalid_cidr, not_ipv4}

-- What the program calls outside the repository: the hex digest of a token (SHA-256) and the IPv6
-- half of `net.ParseCIDR`.
pub record World : Type 0 where
  pub hash : String → String
  pub ipv6_cidr : String → Option String

-- meshNet: the masked address and the prefix length.
pub record MeshNet : Type 0 where
  pub ip : ℕ
  pub ones : ℕ

pub data IpNet : Type 0 where
  v4 : MeshNet → IpNet
  v6 : String → IpNet

unfoldable pub leading_zero : String → Bool
leading_zero String.[] = false
leading_zero (String.◌∷◌ c String.[]) = false
leading_zero (String.◌∷◌ c (String.◌∷◌ d s)) = code c == 48

-- One field of a dotted quad: decimal, at most 255, with no leading zero.
unfoldable pub parse_octet : String → Option ℕ
parse_octet s = elim (parse_decimal s) [
  | none ↦ none
  | some n ↦ if leading_zero s || ltb 255 n then none else some n
]

abbrev quad : Option ℕ → Option ℕ → Option ℕ → Option ℕ → Option ℕ
quad (some a) (some b) (some c) (some d) = some (((a * 256 + b) * 256 + c) * 256 + d)
quad _ _ _ _ = none

abbrev quad_of : List String → Option ℕ
quad_of (a ∷ b ∷ c ∷ d ∷ []) = quad (parse_octet a) (parse_octet b) (parse_octet c) (parse_octet d)
quad_of _ = none

unfoldable pub parse_ipv4 : String → Option ℕ
parse_ipv4 s = quad_of (split b'.' s)

-- ip.String()
unfoldable pub ipv4_text : ℕ → String
ipv4_text ip = append (itoa (ip / 16777216 % 256)) (
    append "." (
      append (itoa (ip / 65536 % 256))
        (append "." (append (itoa (ip / 256 % 256)) (append "." (itoa (ip % 256)))))))

-- ip.Mask(net.CIDRMask(ones, 32))
abbrev pub masked : ℕ → ℕ → ℕ
masked ip ones = ip - ip % 2 ^ (32 - ones)

abbrev cidr4 : Option ℕ → Option ℕ → Option MeshNet
cidr4 (some ip) (some ones) =
    if leb ones 32 then some (record { ip = masked ip ones; ones = ones }) else none
cidr4 _ _ = none

-- The IPv4 half of net.ParseCIDR.
unfoldable pub parse_cidr4 : String → Option MeshNet
parse_cidr4 s = elim (cut b'/' s) [
  | none ↦ none
  | some (address, mask) ↦ cidr4 (parse_ipv4 address) (parse_decimal mask)
]

-- net.ParseCIDR: the network of its second result.
unfoldable pub parse_cidr : World → String → Option IpNet
parse_cidr w s = elim (parse_cidr4 s) [
  | some n ↦ some (v4 n)
  | none ↦ elim (w.ipv6_cidr s) [ none ↦ none | some t ↦ some (v6 t) ]
]

-- ipnet.String()
unfoldable pub net_text : MeshNet → String
net_text m = append (ipv4_text m.ip) (append "/" (itoa m.ones))

abbrev pub ipv4_only : IpNet → Result MeshNet
ipv4_only (v4 m) = ok m
ipv4_only (v6 t) = err not_ipv4

unfoldable pub parse_mesh_cidr : World → String → Result MeshNet
parse_mesh_cidr w cidr =
    let s = trim_space cidr in
    if is_empty s
    then err mesh_cidr_required
    else (do n ← or_fail (parse_cidr w s) invalid_cidr; ipv4_only n)

-- (m *meshNet) deviceIP: the last octet is replaced by byte(d).
abbrev pub device_address : MeshNet → ℕ → ℕ
device_address m d = m.ip - m.ip % 256 + d % 256

unfoldable pub device_ip : MeshNet → ℕ → String
device_ip m d = ipv4_text (device_address m d)

unfoldable pub hub_wg_ip_from_cidr : World → String → Result String
hub_wg_ip_from_cidr w cidr = do m ← parse_mesh_cidr w cidr; ok (device_ip m 1)

-- hubMeshNetwork: "" if the text is no IPv4 network.
abbrev net_text_or_empty : Result MeshNet → String
net_text_or_empty (ok m) = net_text m
net_text_or_empty (err e) = ""

unfoldable pub hub_mesh_network : World → String → String
hub_mesh_network w cidr = net_text_or_empty (parse_mesh_cidr w cidr)

-- (*net.IPNet).Contains
unfoldable pub contains : MeshNet → ℕ → Bool
contains m x = x / 2 ^ (32 - m.ones) == m.ip / 2 ^ (32 - m.ones)

unfoldable pub cidr_overlaps : MeshNet → MeshNet → Bool
cidr_overlaps a b = contains a b.ip || contains b a.ip

pub record LanAddr : Type 0 where
  pub iface : String
  pub cidr : String

unfoldable pub first_lan_cidr : List LanAddr → String
first_lan_cidr [] = ""
first_lan_cidr (a ∷ addrs) =
    let s = trim_space a.cidr in if is_empty s then first_lan_cidr addrs else s

abbrev ip_net_text : Option IpNet → String
ip_net_text none = ""
ip_net_text (some (v4 m)) = net_text m
ip_net_text (some (v6 t)) = t

unfoldable pub lan_cidr_network : World → String → String
lan_cidr_network w cidr =
    let s = trim_space cidr in if is_empty s then "" else ip_net_text (parse_cidr w s)

-- firstLANIP: what stands before the first '/', unless that is the first character.
abbrev before_slash : String → Option (String × String) → String
before_slash s none = s
before_slash s (some (a, b)) = if is_empty a then s else a

unfoldable pub first_lan_ip : String → String
first_lan_ip cidr = before_slash cidr (cut b'/' cidr)

-- fmt.Sprintf("%s:%d", host, port)
unfoldable pub host_port : String → ℕ → String
host_port host port = append host (append ":" (itoa port))
