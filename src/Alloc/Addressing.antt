-- ===== src/Alloc/Addressing.antt =====
-- The invariant under which a registration finds a free address: every live device has the address
-- that its hub's network gives its index, at a site of its hub, and the networks of different hubs
-- do not overlap and are no smaller than a /24.
use mathlib.Core.Path.{subst}
use native.Mathlib.Decide.{ℕ_discrete}
use polar_wg.Base.{
  ◌⊎◌, ◌∙◌, All-mono, ℕ, ◌≤◌, ◌<◌, ◌≡◌, sym, ◌≢◌, true, false, ◌&&◌, List, arith, ◌==◌, str_eq,
  str_eq_iff, any, find, All, All-zip, any-All, All-any, inl, inr, Bool-cases, Option-cases,
}
use polar_wg.Errors.{Result, ok, ◌>>=◌, or_fail, no_rows}
use polar_wg.Net.{World, MeshNet, parse_mesh_cidr, device_ip, cidr_overlaps}
use polar_wg.Net.Parse.{parse_mesh_cidr-IsNetwork}
use polar_wg.Net.Print.{IsNetwork}
use polar_wg.Net.Devices.{device_ip_distinct}
use polar_wg.Store.Rows.{Hub, Site, Device, Db, is_live}
use polar_wg.Store.Devices.{live_where}
use polar_wg.Alloc.Index.{in_hub}
use polar_wg.Alloc.Free.{d_index_taken}

-- The network of a hub.
abbrev pub hub_mesh : World → List Hub → ℕ → Result MeshNet
hub_mesh w hubs id = (do
  h ← or_fail (find (λ (h : Hub). h.id == id) hubs) no_rows
  parse_mesh_cidr w h.mesh_cidr)

pub record Placed (w : World) (db : Db) (d : Device) : Type 0 where
  pub mesh : MeshNet
  pub of_hub : hub_mesh w db.hubs d.hub_id ≡ ok mesh
  pub ip : d.device_ip ≡ device_ip mesh d.d_index
  pub low : 1 ≤ d.d_index
  pub high : d.d_index ≤ 254
  pub site : in_hub db d.hub_id d ≡ true

pub record IsDisjoint (w : World) (hubs : List Hub) : Type 0 where
  pub disjoint :
      (i j : ℕ) (a b : MeshNet)
      → i ≢ j
      → hub_mesh w hubs i ≡ ok a
      → hub_mesh w hubs j ≡ ok b
      → cidr_overlaps a b ≡ false
  pub wide : (i : ℕ) (a : MeshNet) → hub_mesh w hubs i ≡ ok a → a.ones ≤ 24

pub record IsAddressed (w : World) (db : Db) : Type 0 where
  pub placed : All (λ d. is_live d ≡ true → Placed w db d) db.devices
  pub meshes : IsDisjoint w db.hubs
  pub fresh : All (λ d. d.id < db.next_device) db.devices

hub_mesh-IsNetwork :
    (w : World) (hubs : List Hub) (id : ℕ) (m : MeshNet) → hub_mesh w hubs id ≡ ok m → IsNetwork m
hub_mesh-IsNetwork w hubs id m e = elim (Option-cases (find (λ (h : Hub). h.id == id) hubs)) [
  | inl miss ↦ ground arith
  | inr (h, hit) ↦ parse_mesh_cidr-IsNetwork w h.mesh_cidr m (ground arith)
]

module _ (w : World) (db : Db) (hub_id : ℕ) (mesh : MeshNet) (k : ℕ) (v : IsAddressed w db)
    (of_hub : hub_mesh w db.hubs hub_id ≡ ok mesh) (free : d_index_taken db hub_id k ≡ false)
    (high : k ≤ 254) where
  index_differs :
      (d : Device)
      → Placed w db d
      → is_live d ≡ true
      → d.hub_id ≡ hub_id
      → ((in_hub db hub_id d && is_live d) && k == d.d_index) ≡ false
      → d.d_index ≢ k
  index_differs d p live same untaken e =
      let here : in_hub db hub_id d ≡ true = subst (λ h. in_hub db h d ≡ true) same p.site in
      ground (arith, here)

  ip_differs :
      (d : Device)
      → Placed w db d
      → is_live d ≡ true
      → ((in_hub db hub_id d && is_live d) && k == d.d_index) ≡ false
      → d.device_ip ≢ device_ip mesh k
  ip_differs d p live untaken same =
      device_ip_distinct p.mesh mesh d.d_index k
        (hub_mesh-IsNetwork w db.hubs d.hub_id p.mesh p.of_hub)
        (hub_mesh-IsNetwork w db.hubs hub_id mesh of_hub) (v.meshes.wide d.hub_id p.mesh p.of_hub)
        (v.meshes.wide hub_id mesh of_hub) (omega (arith, p.high)) (omega arith) apart
        (sym p.ip ∙ same)
    where
      apart : (cidr_overlaps p.mesh mesh ≡ false) ⊎ (d.d_index ≢ k)
      apart = elim (ℕ_discrete d.hub_id hub_id) [
        | yes e ↦ inr (index_differs d p live e untaken)
        | no n ↦ inl (v.meshes.disjoint d.hub_id hub_id p.mesh mesh n p.of_hub of_hub)
      ]

  -- No live device has the address of a free index.
  pub address_free : live_where (λ r. str_eq r.device_ip (device_ip mesh k)) db ≡ false
  address_free =
      All-any (λ r. is_live r && str_eq r.device_ip (device_ip mesh k)) db.devices
        (All-zip (λ d. is_live d ≡ true → Placed w db d)
          (λ d. ((in_hub db hub_id d && is_live d) && k == d.d_index) ≡ false)
          (λ r. (is_live r && str_eq r.device_ip (device_ip mesh k)) ≡ false)
          (λ d p untaken. other d p untaken) db.devices v.placed
          (any-All (λ d. (in_hub db hub_id d && is_live d) && k == d.d_index) db.devices free))
    where
      other :
          (d : Device)
          → (is_live d ≡ true → Placed w db d)
          → ((in_hub db hub_id d && is_live d) && k == d.d_index) ≡ false
          → (is_live d && str_eq d.device_ip (device_ip mesh k)) ≡ false
      other d p untaken = elim (Bool-cases (is_live d)) [
        | inr dead ↦ rw dead
        | inl live ↦ rw live (
            ground (
              arith,
              ip_differs d (p live) live untaken,
              str_eq_iff d.device_ip (device_ip mesh k),
            ))
      ]

-- No live device at a site of the hub has a free index of the hub.
pub slot_free :
    (db : Db) (hub_id site_id k : ℕ)
    → any (λ (s : Site). s.id == site_id && s.hub_id == hub_id) db.sites ≡ true
    → d_index_taken db hub_id k ≡ false
    → live_where (λ r. r.site_id == site_id && r.d_index == k) db ≡ false
slot_free db hub_id site_id k member free =
    All-any (λ r. is_live r && (r.site_id == site_id && r.d_index == k)) db.devices
      (All-mono (λ d. ((in_hub db hub_id d && is_live d) && k == d.d_index) ≡ false)
        (λ r. (is_live r && (r.site_id == site_id && r.d_index == k)) ≡ false) other db.devices
        (any-All (λ d. (in_hub db hub_id d && is_live d) && k == d.d_index) db.devices free))
  where
    other :
        (d : Device)
        → ((in_hub db hub_id d && is_live d) && k == d.d_index) ≡ false
        → (is_live d && (d.site_id == site_id && d.d_index == k)) ≡ false
    other d untaken = elim (ℕ_discrete d.site_id site_id) [
      | no n ↦ ground arith
      | yes e ↦
          let here : in_hub db hub_id d ≡ true =
            subst (λ i. any (λ (s : Site). s.id == i && s.hub_id == hub_id) db.sites ≡ true) (sym e)
              member in
          ground (arith, here)
    ]
