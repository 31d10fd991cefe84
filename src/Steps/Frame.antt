-- ===== src/Steps/Frame.antt =====
-- Statements that leave every seat as it is: what they may change, and that the invariant stays.
use polar_wg.Steps.{HaveTwoIds, HasOwnAddress, IsSound}
use polar_wg.Alloc.Addressing.{Placed, hub_mesh, IsAddressed}
use polar_wg.Mint.Grown.{IsNumbered}
use polar_wg.Store.Rows.{is_live, Db, Hub, Device}
use polar_wg.Net.{World}
use polar_wg.Base.{
  false, if◌then◌else◌, Pairs-update_where, find-All, All-intro, All-zip, Pairs, Bool-cases,
  find-update_where, inr, find-update_where-none, inl, ◌==◌, find, refl, All-mono, Option-cases,
  ◌<◌, ◌≤◌, All, true, List, All-update_where, ◌∙◌, ℕ, update_where, ◌≡◌, Bool,
}
use mathlib.Core.Path.{subst, sym, ap}

-- A row of a device that has the same seat, and is no more live.
pub record SameSeat (a b : Device) : Type 0 where
  pub id : b.id ≡ a.id
  pub hub_id : b.hub_id ≡ a.hub_id
  pub site_id : b.site_id ≡ a.site_id
  pub d_index : b.d_index ≡ a.d_index
  pub device_ip : b.device_ip ≡ a.device_ip
  pub live : is_live b ≡ true → is_live a ≡ true

pub record SameHub (a b : Hub) : Type 0 where
  pub id : b.id ≡ a.id
  pub mesh_cidr : b.mesh_cidr ≡ a.mesh_cidr
  pub wg_ip : b.wg_ip ≡ a.wg_ip

-- Two databases with the same sites, in which each device has its seat and each hub its network.
pub record Alike (w : World) (db db' : Db) : Type 1 where
  pub sites : db'.sites ≡ db.sites
  pub next_device : db'.next_device ≡ db.next_device
  pub next_hub : db'.next_hub ≡ db.next_hub
  pub meshes : (id : ℕ) → hub_mesh w db'.hubs id ≡ hub_mesh w db.hubs id
  pub devices :
      (P : Device → Type 0)
      → ((a b : Device) → SameSeat a b → P a → P b)
      → All P db.devices
      → All P db'.devices
  pub hubs :
      (P : Hub → Type 0) → ((a b : Hub) → SameHub a b → P a → P b) → All P db.hubs → All P db'.hubs
  pub distinct : Pairs HaveTwoIds db.hubs → Pairs HaveTwoIds db'.hubs

module _ (w : World) where
  pub Alike-trans : (a b c : Db) → Alike w a b → Alike w b c → Alike w a c
  Alike-trans a b c f g = record {
    sites = g.sites ∙ f.sites;
    next_device = g.next_device ∙ f.next_device;
    next_hub = g.next_hub ∙ f.next_hub;
    meshes = λ id. g.meshes id ∙ f.meshes id;
    devices = λ P keeps h. g.devices P keeps (f.devices P keeps h);
    hubs = λ P keeps h. g.hubs P keeps (f.hubs P keeps h);
    distinct = λ h. g.distinct (f.distinct h);
  }

  -- A change of the other tables.
  pub others-Alike :
      (db db' : Db)
      → db'.sites ≡ db.sites
      → db'.devices ≡ db.devices
      → db'.hubs ≡ db.hubs
      → db'.next_device ≡ db.next_device
      → db'.next_hub ≡ db.next_hub
      → Alike w db db'
  others-Alike db db' es ed eh en em = record {
    sites = es;
    next_device = en;
    next_hub = em;
    meshes = λ id. ap (λ l. hub_mesh w l id) eh;
    devices = λ P keeps h. subst (All P) (sym ed) h;
    hubs = λ P keeps h. subst (All P) (sym eh) h;
    distinct = subst (Pairs HaveTwoIds) (sym eh);
  }

  pub devices-Alike :
      (p : Device → Bool) (f : Device → Device) (db db' : Db)
      → db'.sites ≡ db.sites
      → db'.devices ≡ update_where p f db.devices
      → db'.hubs ≡ db.hubs
      → db'.next_device ≡ db.next_device
      → db'.next_hub ≡ db.next_hub
      → ((d : Device) → SameSeat d (f d))
      → Alike w db db'
  devices-Alike p f db db' es ed eh en em same = record {
    sites = es;
    next_device = en;
    next_hub = em;
    meshes = λ id. ap (λ l. hub_mesh w l id) eh;
    devices = λ P keeps h.
        subst (All P) (sym ed)
          (All-update_where P P p f (λ d t k. keeps d (f d) (same d) k) (λ d t k. k) db.devices h);
    hubs = λ P keeps h. subst (All P) (sym eh) h;
    distinct = subst (Pairs HaveTwoIds) (sym eh);
  }

  module _ (p : Hub → Bool) (f : Hub → Hub) (ids : (h : Hub) → (f h).id ≡ h.id) where
    hub_mesh-update_where :
        (id : ℕ) (hubs : List Hub)
        → All (λ h. p h ≡ true → SameHub h (f h)) hubs
        → hub_mesh w (update_where p f hubs) id ≡ hub_mesh w hubs id
    hub_mesh-update_where id hubs same = elim (Option-cases (find (λ (x : Hub). x.id == id) hubs)) [
      | inl e ↦
          let miss =
            find-update_where-none (λ (x : Hub). x.id == id) p f (λ x. ap (λ k. k == id) (ids x))
              hubs e in
          rw (e, miss)
      | inr (h, e) ↦
          let hit =
            find-update_where (λ (x : Hub). x.id == id) p f (λ x. ap (λ k. k == id) (ids x)) hubs h
              e in
          elim (Bool-cases (p h)) [
            | inl t ↦
                let s =
                  find-All (λ h. p h ≡ true → SameHub h (f h)) (λ (x : Hub). x.id == id) hubs h same
                    e t in
                rw (e, hit, t, s.mesh_cidr)
            | inr t ↦ rw (e, hit, t)
          ]
    ]

    two_ids :
        (a b : Hub) → HaveTwoIds a b → HaveTwoIds (if p a then f a else a) (if p b then f b else b)
    two_ids a b differ same = differ (sym (kept (p a) a) ∙ same ∙ kept (p b) b)
      where
        kept : (q : Bool) (h : Hub) → (if q then f h else h).id ≡ h.id
        kept true h = ids h
        kept false h = refl

    -- An update of hubs that leaves the rows it finds in their networks.
    pub hubs_where-Alike :
        (db : Db)
        → All (λ h. p h ≡ true → SameHub h (f h)) db.hubs
        → Alike w db (record db { hubs = update_where p f db.hubs })
    hubs_where-Alike db same = record {
      sites = refl;
      next_device = refl;
      next_hub = refl;
      meshes = λ id. hub_mesh-update_where id db.hubs same;
      devices = λ P keeps h. h;
      hubs = λ P keeps h.
          All-update_where (λ h. (p h ≡ true → SameHub h (f h)) × P h) P p f
            (λ d t k. keeps d (f d) (k.0 t) k.1) (λ d t k. k.1) db.hubs
            (All-zip (λ h. p h ≡ true → SameHub h (f h)) P
              (λ h. (p h ≡ true → SameHub h (f h)) × P h) (λ h s k. (s, k)) db.hubs same h);
      distinct =
          Pairs-update_where HaveTwoIds (λ (h : Hub). Unit {0}) p f (λ a b _ _ r. two_ids a b r)
            db.hubs (All-intro (λ (h : Hub). Unit {0}) (λ h. tt) db.hubs);
    }

  pub hubs-Alike :
      (p : Hub → Bool) (f : Hub → Hub) (db : Db)
      → ((h : Hub) → SameHub h (f h))
      → Alike w db (record db { hubs = update_where p f db.hubs })
  hubs-Alike p f db same =
      hubs_where-Alike p f (λ h. (same h).id) db
        (All-intro (λ h. p h ≡ true → SameHub h (f h)) (λ h _. same h) db.hubs)

module _ (w : World) (db db' : Db) (a : Alike w db db') where
  moved-Placed : (d : Device) → Placed w db d → Placed w db' d
  moved-Placed d p = record {
    mesh = p.mesh;
    of_hub = a.meshes d.hub_id ∙ p.of_hub;
    ip = p.ip;
    low = p.low;
    high = p.high;
    site = rw a.sites p.site;
  }

  SameSeat-Placed : (d e : Device) → SameSeat d e → Placed w db' d → Placed w db' e
  SameSeat-Placed d e s p = record {
    mesh = p.mesh;
    of_hub = rw s.hub_id p.of_hub;
    ip = rw (s.device_ip, s.d_index) p.ip;
    low = rw s.d_index p.low;
    high = rw s.d_index p.high;
    site = rw (s.hub_id, s.site_id) p.site;
  }

  Alike-IsAddressed : IsAddressed w db → IsAddressed w db'
  Alike-IsAddressed v = record {
    placed =
        a.devices (λ d. is_live d ≡ true → Placed w db' d)
          (λ d e s k live. SameSeat-Placed d e s (k (s.live live)))
          (All-mono (λ d. is_live d ≡ true → Placed w db d) (λ d. is_live d ≡ true → Placed w db' d)
            (λ d k live. moved-Placed d (k live)) db.devices v.placed);
    meshes = record {
      disjoint = λ i j m n differ e f.
          v.meshes.disjoint i j m n differ (sym (a.meshes i) ∙ e) (sym (a.meshes j) ∙ f);
      wide = λ i m e. v.meshes.wide i m (sym (a.meshes i) ∙ e);
    };
    fresh =
        a.devices (λ d. d.id < db'.next_device) (λ d e s k. rw s.id k)
          (subst (λ n. All (λ (d : Device). d.id < n) db.devices) (sym a.next_device) v.fresh);
  }

  Alike-IsNumbered : IsNumbered db → IsNumbered db'
  Alike-IsNumbered v = (
    a.hubs (λ h. 1 ≤ h.id) (λ h k s e. rw s.id e) v.0,
    a.hubs (λ h. h.id < db'.next_hub) (λ h k s e. rw s.id e)
        (subst (λ n. All (λ (h : Hub). h.id < n) db.hubs) (sym a.next_hub) v.1),
  )

  own_address : (h k : Hub) → SameHub h k → HasOwnAddress w h → HasOwnAddress w k
  own_address h k s o = record {
    mesh = o.mesh;
    parsed = rw s.mesh_cidr o.parsed;
    own = rw s.wg_ip o.own;
  }

  -- A step between databases that are alike keeps the invariant.
  pub Alike-IsSound : IsSound w db → IsSound w db'
  Alike-IsSound v = record {
    addressed = Alike-IsAddressed v.addressed;
    numbered = Alike-IsNumbered v.numbered;
    counted = rw a.next_hub v.counted;
    addresses = a.hubs (HasOwnAddress w) own_address v.addresses;
    distinct = a.distinct v.distinct;
  }
