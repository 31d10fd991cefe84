-- ===== src/Mint/Hubs.antt =====
-- Minting a hub's token keeps the addressing: the proof of the invariant over `createWGTokenForHub`.
use polar_wg.Mint.Grown.{IsAddressed-kept, made-IsAddressed, IsNumbered}
use polar_wg.Errors.Ends.{returns, anything, Ends-bind, Ends-ok}
use polar_wg.Mint.{
  Role, new_token, get_hub_by_slug, token_for_hub, hub_of_slug, create_token_for_hub, hub_for_token,
  wanted_mesh, HubInput, Token, MintInput, reuse_hub,
}
use polar_wg.Store.Tokens.{insert_token}
use mathlib.Core.Path.{sym, subst}
use polar_wg.Errors.{
  Result-cases, public_endpoint_required, hub_slug_required, label_required, require, ok,
}
use polar_wg.Alloc.Addressing.{IsDisjoint, IsAddressed, hub_mesh}
use polar_wg.Mint.Disjoint.{make_hub-Made}
use polar_wg.Store.Rows.{Hub, Db}
use polar_wg.Net.{parse_mesh_cidr, MeshNet, World}
use polar_wg.Base.{
  none, inl, inr, some, Option, trim_space, is_empty, not, arith, ◌∙◌, ap, ◌≤◌, ◌≡◌, String,
}

insert_token-kept :
    (t : Token) (db : Db) (r : Db × Token)
    → insert_token t db ≡ ok r
    → (r.0.hubs ≡ db.hubs)
      × (r.0.sites ≡ db.sites)
      × (r.0.devices ≡ db.devices)
      × (r.0.next_device ≡ db.next_device)
unfolding insert_token
insert_token-kept t db r done = ground arith

pub reuse_hub-kept :
    (endpoint mesh : String) (h : Hub) (db : Db) (r : Db × Hub)
    → reuse_hub endpoint mesh h db ≡ ok r
    → r.0 ≡ db
unfolding reuse_hub
reuse_hub-kept endpoint mesh h db r done = ground arith

module _ (w : World) (m : MintInput) (i : HubInput) (db : Db) (ids : IsNumbered db)
    (v : IsAddressed w db)
    (wide : (mesh : String) (n : MeshNet)
      → wanted_mesh i db ≡ ok mesh
      → parse_mesh_cidr w mesh ≡ ok n
      → n.ones ≤ 24) where
  hub_of_slug-IsAddressed :
      (slug endpoint mesh : String) (o : Option Hub) (r : Db × Hub)
      → wanted_mesh i db ≡ ok mesh
      → hub_of_slug w i slug endpoint mesh m.now o db ≡ ok r
      → IsAddressed w r.0
  unfolding hub_of_slug
  hub_of_slug-IsAddressed slug endpoint mesh (some h) r picked done =
      rw (reuse_hub-kept endpoint mesh h db r done) v
  hub_of_slug-IsAddressed slug endpoint mesh none r picked done =
      made-IsAddressed w mesh db r (make_hub-Made w i slug endpoint mesh m.now db r done) ids v
        (λ n. wide mesh n picked)

  hub_for_token-IsAddressed :
      (r : (Db × Hub) × String) → hub_for_token w m i db ≡ ok r → IsAddressed w r.0.0
  unfolding hub_for_token
  hub_for_token-IsAddressed r done =
      Ends-ok (λ r. IsAddressed w r.0.0) (λ _. Unit) (hub_for_token w m i db) r done
        (Ends-bind _ (anything (require (not (is_empty (trim_space m.label))) label_required))
          λ _ _.
            Ends-bind _ (anything (require (not (is_empty (trim_space i.slug))) hub_slug_required))
              λ _ _.
                Ends-bind _
                  (anything (
                    require (not (is_empty (trim_space i.public_endpoint)))
                      public_endpoint_required))
                  λ _ _. Ends-bind _ (anything (wanted_mesh i db)) λ mesh picked.
                    Ends-bind _ (anything (parse_mesh_cidr w mesh)) λ n parsed.
                      Ends-bind _
                        (anything (
                          hub_of_slug w i (trim_space i.slug) (trim_space i.public_endpoint) mesh
                            m.now (get_hub_by_slug db (trim_space i.slug)) db))
                        λ at made.
                          returns (at, mesh) (hub_of_slug-IsAddressed _ _ mesh _ at picked made))

  -- Where the hubs' ids count from one below the next id and the network that is taken is no
  -- smaller than a /24, minting a hub's token keeps a database well addressed, however it ends:
  -- every live device keeps its place and no two hubs' networks overlap.
  create_token_for_hub-IsAddressed : IsAddressed w (create_token_for_hub w m i db).0
  unfolding create_token_for_hub token_for_hub
  create_token_for_hub-IsAddressed = elim (Result-cases (hub_for_token w m i db)) [
    | inr (e, failed) ↦ rw failed v
    | inl (((db1, h), mesh), found) ↦
        rw found (written db1 h mesh (hub_for_token-IsAddressed ((db1, h), mesh) found))
  ]
    where
      written :
          (db1 : Db) (h : Hub) (mesh : String)
          → IsAddressed w db1
          → IsAddressed w (token_for_hub w m i (ok ((db1, h), mesh)) db).0
      written db1 h mesh v1 =
          elim (Result-cases (
            insert_token
              (new_token w m Role.hub h.id (some (trim_space i.public_endpoint)) (some mesh))
              db1)) [
                | inr (e, failed) ↦ rw (token_for_hub, failed) v1
                | inl (r, done) ↦
                    let k =
                      insert_token-kept
                        (new_token w m Role.hub h.id (some (trim_space i.public_endpoint))
                          (some mesh))
                        db1 r done in
                    rw (token_for_hub, done)
                      (IsAddressed-kept w db1 r.0 k.1 k.2 k.3
                        (λ id m e. ap (λ l. hub_mesh w l id) k.0 ∙ e)
                        (subst (IsDisjoint w) (sym k.0) v1.meshes) v1)
              ]
