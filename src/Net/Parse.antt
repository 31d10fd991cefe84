-- ===== src/Net/Parse.antt =====
-- What `parseMeshCIDR` returns is an IPv4 network, with no bit set past its prefix.
use native.Mathlib.Nat.{mul-mod_right, div-add-mod}
use polar_wg.Base.{
  ◌/◌, ℕ, ◌-◌, ◌*◌, ◌%◌, ◌^◌, ◌≤◌, ◌<◌, String, ◌≡◌, some, Option, List, [], ◌∷◌, arith, cut, split,
  parse_decimal, trim_space, Option-cases, inl, inr,
}
use polar_wg.Errors.{ok}
use polar_wg.Net.{
  World, MeshNet, parse_octet, parse_ipv4, parse_cidr4, parse_cidr, parse_mesh_cidr, quad, quad_of,
  cidr4,
}
use polar_wg.Net.Print.{IsNetwork}

parse_octet-le : (s : String) (n : ℕ) → parse_octet s ≡ some n → n ≤ 255
unfolding parse_octet
parse_octet-le s n h = ground arith

quad-lt :
    (a b c d : Option ℕ) (ip : ℕ)
    → ((n : ℕ) → a ≡ some n → n ≤ 255)
    → ((n : ℕ) → b ≡ some n → n ≤ 255)
    → ((n : ℕ) → c ≡ some n → n ≤ 255)
    → ((n : ℕ) → d ≡ some n → n ≤ 255)
    → quad a b c d ≡ some ip
    → ip < 2 ^ 32
quad-lt (some a) (some b) (some c) (some d) ip ha hb hc hd e =
    ground (arith, ha a, hb b, hc c, hd d)
quad-lt _ _ _ _ ip ha hb hc hd e = ground arith

quad_of-lt : (l : List String) (ip : ℕ) → quad_of l ≡ some ip → ip < 2 ^ 32
quad_of-lt (a ∷ b ∷ c ∷ d ∷ []) ip e =
    quad-lt _ _ _ _ ip (parse_octet-le a) (parse_octet-le b) (parse_octet-le c) (parse_octet-le d) e
quad_of-lt _ ip e = ground arith

parse_ipv4-lt : (s : String) (n : ℕ) → parse_ipv4 s ≡ some n → n < 2 ^ 32
unfolding parse_ipv4
parse_ipv4-lt s n e = quad_of-lt (split b'.' s) n e

masked_bits : (ip k : ℕ) → (ip - ip % k) % k ≡ 0
masked_bits ip k =
    let e : ip - ip % k ≡ k * (ip / k) = omega (arith, div-add-mod ip k) in
    rw e (mul-mod_right k (ip / k))

cidr4-IsNetwork :
    (a b : Option ℕ) (m : MeshNet)
    → ((n : ℕ) → a ≡ some n → n < 2 ^ 32)
    → cidr4 a b ≡ some m
    → IsNetwork m
cidr4-IsNetwork (some ip) (some ones) m h e = record {
  in_range = ground (arith, h ip);
  prefix = ground arith;
  host_bits = ground (arith, masked_bits ip (2 ^ (32 - ones)));
}
cidr4-IsNetwork _ _ m h e = ground arith

parse_cidr4-IsNetwork : (s : String) (m : MeshNet) → parse_cidr4 s ≡ some m → IsNetwork m
unfolding parse_cidr4
parse_cidr4-IsNetwork s m e = elim (Option-cases (cut b'/' s)) [
  | inl missing ↦ ground arith
  | inr (parts, found) ↦
      cidr4-IsNetwork (parse_ipv4 parts.0) (parse_decimal parts.1) m (parse_ipv4-lt parts.0)
        (ground arith)
]

-- What `parseMeshCIDR` returns is a network: an address of 32 bits, a prefix of at most 32, and
-- no bit of the address behind the prefix.
pub parse_mesh_cidr-IsNetwork :
    (w : World) (s : String) (m : MeshNet) → parse_mesh_cidr w s ≡ ok m → IsNetwork m
unfolding parse_mesh_cidr parse_cidr
parse_mesh_cidr-IsNetwork w s m e = parse_cidr4-IsNetwork (trim_space s) m (ground arith)
