-- ===== src/Mint/Grown.antt =====
-- One more hub, apart from the others, keeps a database well addressed.
use native.Mathlib.Decide.{ℕ_discrete}
use mathlib.Core.Path.{sym, subst}
use polar_wg.Errors.{ok_inj, ok}
use polar_wg.Alloc.Addressing.{IsDisjoint, Placed, IsAddressed, hub_mesh}
use polar_wg.Mint.Disjoint.{apart_from_old, hub_mesh_new, hub_mesh_known, hub_mesh_old, Made}
use polar_wg.Store.Rows.{is_live, Hub, Device, Db}
use polar_wg.Net.{cidr_overlaps, parse_mesh_cidr, MeshNet, World}
use polar_wg.Base.{
  arith, All-mono, true, [], ◌∙◌, ◌∷◌, ◌++◌, ◌≢◌, ap, ◌<◌, ◌≤◌, ℕ, All, ◌≡◌, String,
}

-- The ids of the hubs count from one, below the next value of the sequence.
abbrev pub IsNumbered : Db → Type 0
IsNumbered db = All (λ (h : Hub). 1 ≤ h.id) db.hubs × All (λ (h : Hub). h.id < db.next_hub) db.hubs

overlaps_comm : (a b : MeshNet) → cidr_overlaps a b ≡ cidr_overlaps b a
unfolding cidr_overlaps
overlaps_comm a b = ground arith

Placed-kept :
    (w : World) (db db' : Db) (d : Device)
    → db'.sites ≡ db.sites
    → ((id : ℕ) (m : MeshNet) → hub_mesh w db.hubs id ≡ ok m → hub_mesh w db'.hubs id ≡ ok m)
    → Placed w db d
    → Placed w db' d
Placed-kept w db db' d es keeps p = record {
  mesh = p.mesh;
  of_hub = keeps d.hub_id p.mesh p.of_hub;
  ip = p.ip;
  low = p.low;
  high = p.high;
  site = rw es p.site;
}

pub IsAddressed-kept :
    (w : World) (db db' : Db)
    → db'.sites ≡ db.sites
    → db'.devices ≡ db.devices
    → db'.next_device ≡ db.next_device
    → ((id : ℕ) (m : MeshNet) → hub_mesh w db.hubs id ≡ ok m → hub_mesh w db'.hubs id ≡ ok m)
    → IsDisjoint w db'.hubs
    → IsAddressed w db
    → IsAddressed w db'
IsAddressed-kept w db db' es ed en keeps disjoint v = record {
  placed = subst (All (λ d. is_live d ≡ true → Placed w db' d)) (sym ed) (
      All-mono (λ d. is_live d ≡ true → Placed w db d) (λ d. is_live d ≡ true → Placed w db' d)
        (λ d p live. Placed-kept w db db' d es keeps (p live)) db.devices v.placed);
  meshes = disjoint;
  fresh = rw (ed, en) v.fresh;
}

module _ (w : World) (mesh : String) (db : Db) (r : Db × Hub) (made : Made w mesh db r)
    (ids : IsNumbered db) (v : IsAddressed w db)
    (wide : (n : MeshNet) → parse_mesh_cidr w mesh ≡ ok n → n.ones ≤ 24) where
  older : All (λ (x : Hub). x.id < r.1.id) db.hubs
  older = subst (λ k. All (λ (x : Hub). x.id < k) db.hubs) (sym made.identity) ids.1

  new_mesh : (m : MeshNet) → hub_mesh w (db.hubs ++ r.1 ∷ []) r.1.id ≡ ok m → m ≡ made.network
  new_mesh m e =
      ok_inj m made.network
        (sym e ∙ hub_mesh_new w db.hubs r.1 older ∙ ap (parse_mesh_cidr w) made.own ∙ made.parsed)

  old_mesh :
      (id : ℕ) (m : MeshNet)
      → id ≢ r.1.id
      → hub_mesh w (db.hubs ++ r.1 ∷ []) id ≡ ok m
      → hub_mesh w db.hubs id ≡ ok m
  old_mesh id m other e = sym (hub_mesh_old w db.hubs r.1 id other) ∙ e

  new_at :
      (i : ℕ) (a : MeshNet)
      → i ≡ r.1.id
      → hub_mesh w (db.hubs ++ r.1 ∷ []) i ≡ ok a
      → a ≡ made.network
  new_at i a ei e = new_mesh a (subst (λ k. hub_mesh w (db.hubs ++ r.1 ∷ []) k ≡ ok a) ei e)

  grown-IsDisjoint : IsDisjoint w (db.hubs ++ r.1 ∷ [])
  grown-IsDisjoint = record {
    disjoint = λ i j a b differ ea eb. elim (ℕ_discrete i r.1.id) [
      | yes ei ↦
          let ej : j ≢ r.1.id = (λ e. differ (ei ∙ sym e)) in
          rw (new_at i a ei ea)
            (apart_from_old w db.hubs made.network b j ids.0 made.apart (old_mesh j b ej eb))
      | no ni ↦ elim (ℕ_discrete j r.1.id) [
        | yes ej ↦
            rw (new_at j b ej eb, overlaps_comm a made.network)
              (apart_from_old w db.hubs made.network a i ids.0 made.apart (old_mesh i a ni ea))
        | no nj ↦ v.meshes.disjoint i j a b differ (old_mesh i a ni ea) (old_mesh j b nj eb)
      ]
    ];
    wide = λ i a e. elim (ℕ_discrete i r.1.id) [
      | yes ei ↦ rw (new_at i a ei e) (wide made.network made.parsed)
      | no ni ↦ v.meshes.wide i a (old_mesh i a ni e)
    ];
  }

  pub made-IsAddressed : IsAddressed w r.0
  made-IsAddressed =
      IsAddressed-kept w db r.0 made.sites made.devices made.next_device
        (λ id m e.
          ap (λ l. hub_mesh w l id) made.hubs
          ∙ hub_mesh_old w db.hubs r.1 id (hub_mesh_known w db.hubs r.1 id m older e)
          ∙ e)
        (subst (IsDisjoint w) (sym made.hubs) grown-IsDisjoint) v
