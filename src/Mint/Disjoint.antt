-- ===== src/Mint/Disjoint.antt =====
-- A new hub leaves the addressing as it was: no network of two hubs overlaps, and every device keeps
-- its place.
use polar_wg.Errors.{>>=-eq-ok, Result-cases}
use polar_wg.Alloc.Addressing.{hub_mesh}
use polar_wg.Net.{hub_wg_ip_from_cidr, cidr_overlaps, MeshNet, parse_mesh_cidr, World}
use polar_wg.Mint.{HubInput, ok, Hub, Db, list_hubs, make_hub}
use polar_wg.Store.Hubs.{list_hubs, create_hub}
use polar_wg.Routing.Validate.{overlaps_hub, validate_mesh_cidr_disjoint}
use polar_wg.Base.{
  suc, ==_refl, some, any-All, All-mono, ◌∙◌, All-find, find-append_none, find-test, none, find-All,
  ◌≤◌, find-append_some, inr, inl, find, ◌&&◌, Option-cases, ◌==◌, [], refl, ◌∷◌, not, any, ◌++◌,
  arith, ◌<◌, false, All, ◌≡◌, ◌≢◌, trim_right, is_empty, ℕ, trim_left, trim_space, String, List,
}

-- What a made hub is.
pub record Made (w : World) (mesh : String) (db : Db) (r : Db × Hub) : Type 0 where
  pub network : MeshNet
  pub parsed : parse_mesh_cidr w mesh ≡ ok network
  pub own : r.1.mesh_cidr ≡ mesh
  pub identity : r.1.id ≡ db.next_hub
  pub hubs : r.0.hubs ≡ db.hubs ++ r.1 ∷ []
  pub devices : r.0.devices ≡ db.devices
  pub next_device : r.0.next_device ≡ db.next_device
  pub sites : r.0.sites ≡ db.sites
  pub next_hub : r.0.next_hub ≡ suc db.next_hub
  pub address : hub_wg_ip_from_cidr w mesh ≡ ok r.1.wg_ip
  pub apart : any (λ (h : Hub). not (h.id == 0) && overlaps_hub w network h) db.hubs ≡ false

create_hub_lem :
    (w : World) (slug label endpoint mesh : String) (now : ℕ) (db : Db) (r : Db × Hub)
    → is_empty mesh ≡ false
    → create_hub w slug label endpoint mesh now db ≡ ok r
    → (r.1.mesh_cidr ≡ mesh)
      × (r.1.id ≡ db.next_hub)
      × (r.0.hubs ≡ db.hubs ++ r.1 ∷ [])
      × (r.0.devices ≡ db.devices)
      × (r.0.next_device ≡ db.next_device)
      × (r.0.sites ≡ db.sites)
      × (r.0.next_hub ≡ suc db.next_hub)
      × (hub_wg_ip_from_cidr w mesh ≡ ok r.1.wg_ip)
unfolding create_hub
create_hub_lem w slug label endpoint mesh now db r full done = ground arith

pub parsed_is_full :
    (w : World) (mesh : String) (n : MeshNet)
    → parse_mesh_cidr w mesh ≡ ok n
    → is_empty mesh ≡ false
unfolding parse_mesh_cidr trim_space trim_left trim_right
parsed_is_full w String.[] n e = ground arith
parsed_is_full w (String.◌∷◌ c s) n e = refl

disjoint_lem :
    (w : World) (mesh : String) (hubs : List Hub)
    → validate_mesh_cidr_disjoint w mesh hubs 0 ≡ ok tt
    → (n : MeshNet) × (parse_mesh_cidr w mesh ≡ ok n)
      × (any (λ (h : Hub). not (h.id == 0) && overlaps_hub w n h) hubs ≡ false)
unfolding validate_mesh_cidr_disjoint
disjoint_lem w mesh hubs e = elim (Result-cases (parse_mesh_cidr w mesh)) [
  | inl (n, p) ↦ (n, p, ground (arith, p))
  | inr (f, p) ↦ ground (arith, p)
]

pub make_hub-Made :
    (w : World) (i : HubInput) (slug endpoint mesh : String) (now : ℕ) (db : Db) (r : Db × Hub)
    → make_hub w i slug endpoint mesh now db ≡ ok r
    → Made w mesh db r
unfolding make_hub list_hubs
make_hub-Made w i slug endpoint mesh now db r done =
    let (t, valid, rest) =
      >>=-eq-ok (validate_mesh_cidr_disjoint w mesh db.hubs 0)
        (λ _. create_hub w slug i.label endpoint mesh now db) r done in
    let (n, p, free) = disjoint_lem w mesh db.hubs valid in
    let c = create_hub_lem w slug i.label endpoint mesh now db r (parsed_is_full w mesh n p) rest in
    record {
      network = n;
      parsed = p;
      own = c.0;
      identity = c.1;
      hubs = c.2;
      devices = c.3;
      next_device = c.4;
      sites = c.5;
      next_hub = c.6;
      address = c.7;
      apart = free;
    }

module _ (w : World) (hubs : List Hub) (h : Hub) where
  -- A row with a new id hides no other, and is itself found.
  pub hub_mesh_old : (id : ℕ) → id ≢ h.id → hub_mesh w (hubs ++ h ∷ []) id ≡ hub_mesh w hubs id
  hub_mesh_old id other = elim (Option-cases (find (λ (x : Hub). x.id == id) hubs)) [
    | inl e ↦
        let miss : find (λ (x : Hub). x.id == id) (hubs ++ h ∷ []) ≡ none =
          find-append_none (λ (x : Hub). x.id == id) hubs (h ∷ []) e ∙ ground arith in
        rw (e, miss)
    | inr (x, e) ↦ rw (e, find-append_some (λ (x : Hub). x.id == id) hubs (h ∷ []) x e)
  ]

  pub hub_mesh_new :
      All (λ (x : Hub). x.id < h.id) hubs
      → hub_mesh w (hubs ++ h ∷ []) h.id ≡ parse_mesh_cidr w h.mesh_cidr
  hub_mesh_new older =
      let old : find (λ (x : Hub). x.id == h.id) hubs ≡ none =
        All-find (λ (x : Hub). x.id == h.id) hubs
          (All-mono (λ (x : Hub). x.id < h.id) (λ (x : Hub). (x.id == h.id) ≡ false)
            (λ x e. ground arith) hubs older) in
      let hit : find (λ (x : Hub). x.id == h.id) (hubs ++ h ∷ []) ≡ some h =
        find-append_none (λ (x : Hub). x.id == h.id) hubs (h ∷ []) old ∙ rw (==_refl h.id) in
      rw hit

  pub hub_mesh_known :
      (id : ℕ) (m : MeshNet)
      → All (λ (x : Hub). x.id < h.id) hubs
      → hub_mesh w hubs id ≡ ok m
      → id ≢ h.id
  hub_mesh_known id m older e same = elim (Option-cases (find (λ (x : Hub). x.id == id) hubs)) [
    | inl miss ↦ ground (arith, miss)
    | inr (x, hit) ↦ ground (
      arith,
      find-All (λ (x : Hub). x.id < h.id) (λ (x : Hub). x.id == id) hubs x older hit,
      find-test (λ (x : Hub). x.id == id) hubs x hit,
    )
  ]

-- No hub of the table has a network that overlaps the new one.
pub apart_from_old :
    (w : World) (hubs : List Hub) (n b : MeshNet) (id : ℕ)
    → All (λ (h : Hub). 1 ≤ h.id) hubs
    → any (λ (h : Hub). not (h.id == 0) && overlaps_hub w n h) hubs ≡ false
    → hub_mesh w hubs id ≡ ok b
    → cidr_overlaps n b ≡ false
apart_from_old w hubs n b id counted free e =
    elim (Option-cases (find (λ (x : Hub). x.id == id) hubs)) [
      | inl miss ↦ ground (arith, miss)
      | inr (x, hit) ↦
          let none_here : (not (x.id == 0) && overlaps_hub w n x) ≡ false =
            find-All (λ (h : Hub). (not (h.id == 0) && overlaps_hub w n h) ≡ false)
              (λ (x : Hub). x.id == id) hubs x
              (any-All (λ (h : Hub). not (h.id == 0) && overlaps_hub w n h) hubs free) hit in
          let there : 1 ≤ x.id =
            find-All (λ (h : Hub). 1 ≤ h.id) (λ (x : Hub). x.id == id) hubs x counted hit in
          let net : parse_mesh_cidr w x.mesh_cidr ≡ ok b = ground (arith, hit) in
          ground (arith, net)
    ]
