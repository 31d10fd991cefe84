-- ===== src/Examples/Nets.antt =====
-- Networks and addresses.
use polar_wg.Net.Overlap.{cidr_overlaps_iff}
use polar_wg.Errors.{ok}
use polar_wg.Net.Devices.{device_ip_distinct}
use polar_wg.Net.Print.{parse_mesh_cidr-net_text, IsNetwork}
use polar_wg.Examples.Data.{world, home_mesh}
use polar_wg.Net.{net_text, MeshNet, parse_mesh_cidr, device_ip, contains, cidr_overlaps}
use polar_wg.Base.{◌^◌, ◌<◌, ℕ, inl, ◌↔◌, refl, true, false, arith, ◌≡◌, ◌≢◌}

home-IsNetwork : IsNetwork home_mesh
home-IsNetwork = record { in_range = omega arith; prefix = omega arith; host_bits = refl }

-- 100.64.1.0/24
abbrev next_mesh : MeshNet
next_mesh = record { ip = 1681916160; ones = 24 }

next-IsNetwork : IsNetwork next_mesh
next-IsNetwork = record { in_range = omega arith; prefix = omega arith; host_bits = refl }

cidr_overlaps_iff_example :
    (cidr_overlaps home_mesh next_mesh ≡ true)
    ↔ ((x : ℕ) × (x < 2 ^ 32) × (contains home_mesh x ≡ true) × (contains next_mesh x ≡ true))
cidr_overlaps_iff_example = cidr_overlaps_iff home_mesh next_mesh home-IsNetwork next-IsNetwork

no_overlap : cidr_overlaps home_mesh next_mesh ≡ false
unfolding cidr_overlaps contains
no_overlap = refl

device_ip_distinct_example : device_ip home_mesh 2 ≢ device_ip next_mesh 2
device_ip_distinct_example =
    device_ip_distinct home_mesh next_mesh 2 2 home-IsNetwork next-IsNetwork (omega arith)
      (omega arith) (omega arith) (omega arith) (inl no_overlap)

parse_mesh_cidr-net_text_example : parse_mesh_cidr world (net_text home_mesh) ≡ ok home_mesh
parse_mesh_cidr-net_text_example = parse_mesh_cidr-net_text world home_mesh home-IsNetwork
