-- ===== src/Steps/Hubs.antt =====
-- A hub that is made with its token, and one that is deleted.
use native.Mathlib.Decide.{ℕ_discrete}
use polar_wg.Alloc.Addressing.{Placed, hub_mesh}
use polar_wg.Store.Hubs.{drop_hub, get_hub_by_slug}
use polar_wg.Steps.Statements.{insert_token-Alike}
use polar_wg.Steps.Frame.{Alike-IsSound}
use polar_wg.Store.Tokens.{insert_token}
use polar_wg.Mint.Hubs.{reuse_hub-kept}
use polar_wg.Mint.Grown.{made-IsAddressed}
use polar_wg.Mint.Disjoint.{make_hub-Made, Made}
use polar_wg.Steps.{HaveTwoIds, HasOwnAddress, IsSound}
use polar_wg.Store.Rows.{is_live, Site, Device, Role, Hub, Db}
use polar_wg.Mint.{
  new_token, create_token_for_hub, hub_for_token, hub_of_slug, token_for_hub, wanted_mesh, HubInput,
  MintInput,
}
use polar_wg.Net.{device_ip, parse_mesh_cidr, MeshNet, hub_wg_ip_from_cidr, World}
use polar_wg.Base.{
  Pairs-append, Pairs, Pairs-select, All-map, true, select, ◌&&◌, any, ◌==◌, All-select, ◌≢◌, find,
  List, ℕ, All-mono, ◌<◌, none, arith, not, [], ◌∷◌, trim_space, All-append, some, All, Option,
  is_empty, ◌≤◌, ◌≡◌, String, refl, inl, inr,
}
use polar_wg.Errors.{
  public_endpoint_required, hub_slug_required, label_required, require, Result-cases, ok, ok_inj,
}
use polar_wg.Errors.Ends.{anything, Ends-bind, Ends-ok, returns}
use mathlib.Core.Path.{subst, sym}

module _ (w : World) where
  made_address : (mesh : String) (db : Db) (r : Db × Hub) → Made w mesh db r → HasOwnAddress w r.1
  unfolding hub_wg_ip_from_cidr
  made_address mesh db r made =
      let there : device_ip made.network 1 ≡ r.1.wg_ip =
        ok_inj (device_ip made.network 1) r.1.wg_ip
          (rw (hub_wg_ip_from_cidr, made.parsed) at made.address) in
      record { mesh = made.network; parsed = rw made.own made.parsed; own = sym there }

  made-IsSound :
      (mesh : String) (db : Db) (r : Db × Hub)
      → ((n : MeshNet) → parse_mesh_cidr w mesh ≡ ok n → n.ones ≤ 24)
      → Made w mesh db r
      → IsSound w db
      → IsSound w r.0
  made-IsSound mesh db r wide made v = record {
    addressed = made-IsAddressed w mesh db r made v.numbered v.addressed wide;
    numbered = (
      subst (All (λ (h : Hub). 1 ≤ h.id)) (sym made.hubs) (
          All-append (λ (h : Hub). 1 ≤ h.id) db.hubs (r.1 ∷ []) v.numbered.0
            (omega (arith, made.identity, v.counted), tt)),
      subst (All (λ (h : Hub). h.id < r.0.next_hub)) (sym made.hubs) (
          All-append (λ (h : Hub). h.id < r.0.next_hub) db.hubs (r.1 ∷ [])
            (All-mono (λ (h : Hub). h.id < db.next_hub) (λ (h : Hub). h.id < r.0.next_hub)
              (λ h e. omega (arith, made.next_hub)) db.hubs v.numbered.1)
            (omega (arith, made.identity, made.next_hub), tt)),
    );
    counted = omega (arith, made.next_hub);
    addresses = subst (All (HasOwnAddress w)) (sym made.hubs) (
        All-append (HasOwnAddress w) db.hubs (r.1 ∷ []) v.addresses
          (made_address mesh db r made, tt));
    distinct = subst (Pairs HaveTwoIds) (sym made.hubs) (
        Pairs-append HaveTwoIds db.hubs r.1 v.distinct (
          All-mono (λ (h : Hub). h.id < db.next_hub) (λ h. HaveTwoIds h r.1)
            (λ h e same. omega (arith, same, made.identity)) db.hubs v.numbered.1));
  }

  module _ (m : MintInput) (i : HubInput) (db : Db) (v : IsSound w db)
      (wide : (mesh : String) (n : MeshNet)
        → wanted_mesh i db ≡ ok mesh
        → parse_mesh_cidr w mesh ≡ ok n
        → n.ones ≤ 24) where
    hub_of_slug-IsSound :
        (slug endpoint mesh : String) (o : Option Hub) (r : Db × Hub)
        → wanted_mesh i db ≡ ok mesh
        → hub_of_slug w i slug endpoint mesh m.now o db ≡ ok r
        → IsSound w r.0
    unfolding hub_of_slug
    hub_of_slug-IsSound slug endpoint mesh (some h) r picked done =
        rw (reuse_hub-kept endpoint mesh h db r done) v
    hub_of_slug-IsSound slug endpoint mesh none r picked done =
        made-IsSound mesh db r (λ n. wide mesh n picked)
          (make_hub-Made w i slug endpoint mesh m.now db r done) v

    hub_for_token-IsSound :
        (r : (Db × Hub) × String) → hub_for_token w m i db ≡ ok r → IsSound w r.0.0
    unfolding hub_for_token
    hub_for_token-IsSound r done =
        Ends-ok (λ (r : (Db × Hub) × String). IsSound w r.0.0) (λ _. Unit) (hub_for_token w m i db)
          r done
          (Ends-bind _ (anything (require (not (is_empty (trim_space m.label))) label_required))
            λ _ _.
              Ends-bind _
                (anything (require (not (is_empty (trim_space i.slug))) hub_slug_required))
                λ _ _.
                  Ends-bind _
                    (anything (
                      require (not (is_empty (trim_space i.public_endpoint)))
                        public_endpoint_required))
                    λ _ _. Ends-bind _ (anything (wanted_mesh i db)) λ mesh picked.
                      Ends-bind _ (anything (parse_mesh_cidr w mesh)) λ n parsed.
                        Ends-bind _
                          (anything (
                            hub_of_slug w i (trim_space i.slug) (trim_space i.public_endpoint) mesh
                              m.now (get_hub_by_slug db (trim_space i.slug)) db))
                          λ at made.
                            returns (at, mesh) (hub_of_slug-IsSound _ _ mesh _ at picked made))

    written :
        (h : Hub) (mesh : String) (db1 : Db)
        → IsSound w db1
        → IsSound w (token_for_hub w m i (ok ((db1, h), mesh)) db).0
    unfolding token_for_hub
    written h mesh db1 v1 =
        let t = new_token w m Role.hub h.id (some (trim_space i.public_endpoint)) (some mesh) in
        elim (Result-cases (insert_token t db1)) [
          | inr (e, failed) ↦ rw (token_for_hub, failed) v1
          | inl (r, done) ↦
              rw (token_for_hub, done)
                (Alike-IsSound w db1 r.0 (insert_token-Alike w t db1 r done) v1)
        ]

    pub create_token_for_hub-IsSound : IsSound w (create_token_for_hub w m i db).0
    unfolding create_token_for_hub token_for_hub
    create_token_for_hub-IsSound = elim (Result-cases (hub_for_token w m i db)) [
      | inr (e, failed) ↦ rw failed v
      | inl (((db1, h), mesh), found) ↦
          rw found (written h mesh db1 (hub_for_token-IsSound ((db1, h), mesh) found))
    ]

drop_find :
    (id k : ℕ) (hubs : List Hub)
    → k ≢ id
    → find (λ (h : Hub). h.id == k) (select (λ h. not (h.id == id)) hubs)
      ≡ find (λ (h : Hub). h.id == k) hubs
drop_find id k [] other = refl
drop_find id k (h ∷ hubs) other = ground (arith, drop_find id k hubs other)

drop_find_own :
    (id : ℕ) (hubs : List Hub)
    → find (λ (h : Hub). h.id == id) (select (λ h. not (h.id == id)) hubs) ≡ none
drop_find_own id [] = refl
drop_find_own id (h ∷ hubs) = ground (arith, drop_find_own id hubs)

-- The sites of another hub stay.
drop_site :
    (id site hub_id : ℕ) (sites : List Site)
    → hub_id ≢ id
    → any (λ (s : Site). s.id == site && s.hub_id == hub_id) sites ≡ true
    → any
        (λ (s : Site). s.id == site && s.hub_id == hub_id)
        (select (λ s. not (s.hub_id == id)) sites)
      ≡ true
drop_site id site hub_id [] other h = cc
drop_site id site hub_id (s ∷ sites) other h = ground (arith, drop_site id site hub_id sites other)

module _ (w : World) (id : ℕ) (db : Db) (v : IsSound w db) where
  dropped_mesh :
      (k : ℕ) (m : MeshNet)
      → hub_mesh w (drop_hub id db).hubs k ≡ ok m
      → hub_mesh w db.hubs k ≡ ok m
  unfolding drop_hub
  dropped_mesh k m e = elim (ℕ_discrete k id) [
    | yes same ↦ ground (arith, same, drop_find_own id db.hubs)
    | no other ↦ rw (sym (drop_find id k db.hubs other)) e
  ]

  dropped-Placed : (d : Device) → d.hub_id ≢ id → Placed w db d → Placed w (drop_hub id db) d
  unfolding drop_hub
  dropped-Placed d other p = record {
    mesh = p.mesh;
    of_hub = rw (drop_find id d.hub_id db.hubs other) p.of_hub;
    ip = p.ip;
    low = p.low;
    high = p.high;
    site = drop_site id d.site_id d.hub_id db.sites other p.site;
  }

  -- Without a hub, its sites and its devices the database is sound.
  pub drop_hub-IsSound : IsSound w (drop_hub id db)
  unfolding drop_hub
  drop_hub-IsSound = record {
    addressed = record {
      placed =
          All-map (λ (d : Device). is_live d ≡ true → Placed w (drop_hub id db) d) _ _
            (All-mono
              (λ (d : Device). (not (d.hub_id == id) ≡ true) × (is_live d ≡ true → Placed w db d))
              (λ (d : Device). is_live d ≡ true → Placed w (drop_hub id db) _)
              (λ d e live.
                let p = dropped-Placed d (λ same. ground arith) (e.1 live) in
                record {
                  mesh = p.mesh;
                  of_hub = p.of_hub;
                  ip = p.ip;
                  low = p.low;
                  high = p.high;
                  site = p.site;
                })
              _
              (All-select (λ (d : Device). is_live d ≡ true → Placed w db d)
                (λ d. not (d.hub_id == id)) db.devices v.addressed.placed));
      meshes = record {
        disjoint = λ i j a b differ e f.
            v.addressed.meshes.disjoint i j a b differ (dropped_mesh i a e) (dropped_mesh j b f);
        wide = λ i a e. v.addressed.meshes.wide i a (dropped_mesh i a e);
      };
      fresh =
          All-map (λ (d : Device). d.id < db.next_device) _ _
            (All-mono _ (λ (d : Device). d.id < db.next_device) (λ d e. e.1) _
              (All-select (λ (d : Device). d.id < db.next_device) (λ d. not (d.hub_id == id))
                db.devices v.addressed.fresh));
    };
    numbered = (
      All-mono _ (λ (h : Hub). 1 ≤ h.id) (λ h e. e.1) _
          (All-select (λ (h : Hub). 1 ≤ h.id) (λ h. not (h.id == id)) db.hubs v.numbered.0),
      All-mono _ (λ (h : Hub). h.id < db.next_hub) (λ h e. e.1) _
          (All-select (λ (h : Hub). h.id < db.next_hub) (λ h. not (h.id == id)) db.hubs
            v.numbered.1),
    );
    counted = v.counted;
    addresses =
        All-mono _ (HasOwnAddress w) (λ h e. e.1) _
          (All-select (HasOwnAddress w) (λ h. not (h.id == id)) db.hubs v.addresses);
    distinct = Pairs-select HaveTwoIds (λ h. not (h.id == id)) db.hubs v.distinct;
  }
