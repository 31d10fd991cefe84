-- ===== src/Net/Devices.antt =====
-- The addresses that `deviceIP` gives out: inside the network, and different for different devices,
-- as long as no network is smaller than a /24.
use native.Mathlib.Nat.{div-div-eq-div-mul}
use polar_wg.Base.{
  ℕ, ◌+◌, ◌-◌, ◌/◌, ◌^◌, ◌≤◌, ◌<◌, ◌≡◌, sym, ◌≢◌, ◌⊎◌, inl, inr, true, false, arith, ==_refl,
}
use polar_wg.Net.{MeshNet, contains, cidr_overlaps, device_address, device_ip}
use polar_wg.Net.Print.{IsNetwork, ipv4_text_injective}
use polar_wg.Net.Overlap.{cidr_overlaps_iff, pow_add}

device_address_range : (m : MeshNet) (d : ℕ) → IsNetwork m → device_address m d < 2 ^ 32
device_address_range m d n = omega (arith, n.in_range)

-- In a /24 or a larger network every device address belongs to the network.
pub contains-device_address :
    (m : MeshNet) (d : ℕ) → m.ones ≤ 24 → contains m (device_address m d) ≡ true
unfolding contains
contains-device_address m d h =
    let s : 32 - m.ones ≡ 8 + (24 - m.ones) = omega arith in
    let coarse : (x : ℕ) → x / 2 ^ (8 + (24 - m.ones)) ≡ x / 256 / 2 ^ (24 - m.ones) =
      λ x. rw (pow_add 8 (24 - m.ones)) (sym (div-div-eq-div-mul x 256 (2 ^ (24 - m.ones)))) in
    let block : device_address m d / 256 ≡ m.ip / 256 = omega arith in
    rw (s, coarse (device_address m d), coarse m.ip, block, ==_refl)

same_device :
    (a b : MeshNet) (d e : ℕ) → d < 256 → e < 256 → device_address a d ≡ device_address b e → d ≡ e
same_device a b d e hd he h = omega arith

same_address :
    (a b : MeshNet) (d e : ℕ)
    → IsNetwork a
    → IsNetwork b
    → device_ip a d ≡ device_ip b e
    → device_address a d ≡ device_address b e
unfolding device_ip
same_address a b d e na nb h =
    ipv4_text_injective _ _ (device_address_range a d na) (device_address_range b e nb) h

-- For two IPv4 networks with prefixes of at most 24 and two indexes below 256, the devices'
-- address texts differ where the networks do not overlap or the indexes differ.
pub device_ip_distinct :
    (a b : MeshNet) (d e : ℕ)
    → IsNetwork a
    → IsNetwork b
    → a.ones ≤ 24
    → b.ones ≤ 24
    → d < 256
    → e < 256
    → (cidr_overlaps a b ≡ false) ⊎ (d ≢ e)
    → device_ip a d ≢ device_ip b e
unfolding device_ip
device_ip_distinct a b d e na nb pa pb hd he (inr differ) h =
    differ (same_device a b d e hd he (same_address a b d e na nb h))
device_ip_distinct a b d e na nb pa pb hd he (inl apart) h =
    let x = device_address a d in
    let same : x ≡ device_address b e = same_address a b d e na nb h in
    let in_b : contains b x ≡ true = rw same (contains-device_address b e pb) in
    let meet =
      (cidr_overlaps_iff a b na nb).1
        (x, device_address_range a d na, contains-device_address a d pa, in_b) in
    cc (meet, apart)
