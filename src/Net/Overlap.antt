-- ===== src/Net/Overlap.antt =====
-- What `cidrOverlaps` decides: whether two networks share an address.
use native.Mathlib.Nat.{add-zero, pow-suc, mul_assoc, pow-suc, div-div-eq-div-mul, mul_assoc}
use polar_wg.Base.{
  ℕ, zero, suc, ◌+◌, ◌-◌, ◌*◌, ◌/◌, ◌^◌, ◌≤◌, ◌<◌, ◌≡◌, ◌↔◌, inl, inr, true, arith, ==_iff, ==_refl,
  ◌||◌, leb, Bool-cases,
}
use polar_wg.Net.{MeshNet, contains, cidr_overlaps}
use polar_wg.Net.Print.{IsNetwork}

pub pow_add : (a b : ℕ) → 2 ^ (a + b) ≡ 2 ^ a * 2 ^ b
pow_add a zero = rw (add-zero a) (omega arith)
pow_add a (suc b) =
    let e : a + suc b ≡ suc (a + b) = omega arith in
    rw (e, pow-suc 2 (a + b), pow-suc 2 b, pow_add a b) (mul_assoc (2 ^ a) (2 ^ b) 2)

pub contains_self : (m : MeshNet) → contains m m.ip ≡ true
unfolding contains
contains_self m = ==_refl _

-- Equal quotients stay equal under a coarser power.
coarser : (s k x y : ℕ) → x / 2 ^ s ≡ y / 2 ^ s → x / 2 ^ (s + k) ≡ y / 2 ^ (s + k)
coarser s k x y e =
    rw (
      pow_add s k,
      ← div-div-eq-div-mul x (2 ^ s) (2 ^ k),
      ← div-div-eq-div-mul y (2 ^ s) (2 ^ k),
      e,
    )

-- A network that shares an address with a network of a longer or equal prefix contains it.
contains_of_shared :
    (a b : MeshNet) (x : ℕ)
    → a.ones ≤ b.ones
    → b.ones ≤ 32
    → contains a x ≡ true
    → contains b x ≡ true
    → contains a b.ip ≡ true
unfolding contains
contains_of_shared a b x h p ha hb =
    let e : x / 2 ^ (32 - b.ones) ≡ b.ip / 2 ^ (32 - b.ones) = (==_iff _ _).0 hb in
    let c : x / 2 ^ (32 - b.ones + (b.ones - a.ones))
        ≡ b.ip / 2 ^ (32 - b.ones + (b.ones - a.ones)) =
      coarser (32 - b.ones) (b.ones - a.ones) x b.ip e in
    let s : 32 - b.ones + (b.ones - a.ones) ≡ 32 - a.ones = omega arith in ground (arith, rw s at c)

-- Two IPv4 networks overlap by `cidrOverlaps` exactly when some 32-bit address lies in both.
pub cidr_overlaps_iff :
    (a b : MeshNet)
    → IsNetwork a
    → IsNetwork b
    → (cidr_overlaps a b ≡ true)
      ↔ ((x : ℕ) × (x < 2 ^ 32) × (contains a x ≡ true) × (contains b x ≡ true))
unfolding cidr_overlaps
cidr_overlaps_iff a b na nb = (forwards, backwards)
  where
    forwards :
        (contains a b.ip || contains b a.ip) ≡ true
        → (x : ℕ) × (x < 2 ^ 32) × (contains a x ≡ true) × (contains b x ≡ true)
    forwards h = elim (Bool-cases (contains a b.ip)) [
      | inl e ↦ (b.ip, nb.in_range, e, contains_self b)
      | inr e ↦ (a.ip, na.in_range, contains_self a, ground arith)
    ]

    backwards :
        ((x : ℕ) × (x < 2 ^ 32) × (contains a x ≡ true) × (contains b x ≡ true))
        → (contains a b.ip || contains b a.ip) ≡ true
    backwards (x, _, ha, hb) = elim (Bool-cases (leb a.ones b.ones)) [
      | inl le ↦ ground (arith, contains_of_shared a b x (ground arith) nb.prefix ha hb)
      | inr gt ↦ ground (arith, contains_of_shared b a x (ground arith) na.prefix hb ha)
    ]
