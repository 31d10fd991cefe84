-- ===== src/Steps/Progress.antt =====
-- Registration on a database that the control plane has reached.
use polar_wg.Alloc.Free.{pick_free_d_index_lem, d_index_taken, Searched}
use polar_wg.Store.Devices.{lookup_device_by_pubkey}
use polar_wg.Alloc.Room.{pick_free_d_index_found}
use polar_wg.Steps.{HasOwnAddress}
use polar_wg.Alloc.Index.{pick_free_d_index, used_d_indexes}
use polar_wg.Alloc.Siting.{resolve_or_create_site-Ends, SiteRefusal, AtSite}
use polar_wg.Alloc.Joining.{
  allocate_device-steps, IsFree, allocate_device-Ends, device_refusal, Joined,
}
use polar_wg.Alloc.Sites.{resolve_or_create_site}
use polar_wg.Alloc.{allocate_device, claim, do_allocate}
use polar_wg.Store.Hubs.{get_hub_by_id}
use polar_wg.Store.Tokens.{lookup_unused_token}
use polar_wg.Steps.Machine.{Reachable-IsSound, Reachable}
use polar_wg.Store.Rows.{Device, Role, configured, Site, Db, Hub, Token}
use polar_wg.Alloc.Input.{Allocated, RegisterInput, Call}
use polar_wg.Net.{parse_mesh_cidr, MeshNet, World}
use polar_wg.Base.{
  str_eq, arith, any, ◌∙◌, none, trim_space, false, is_some, ◌<◌, find-All, true, some, ◌==◌,
  length, find, ◌≡◌, refl,
}
use polar_wg.Errors.{site_exhausted, ok_inj, ok}
use polar_wg.Errors.Ends.{Ends-total, Ends-ok, Ends, returns}
use mathlib.Core.Path.{subst, sym}

-- A call with an unused device token of a hub that is there, for a key that no live device has and
-- with a device id that no row has.
pub record IsFirstCall (w : World) (c : Call) (i : RegisterInput) (tok : Token) (h : Hub) (db : Db)
    : Type 0 where
  pub row : lookup_unused_token w i.token c.now db ≡ ok (some tok)
  pub role : tok.role ≡ Role.device
  pub unused : is_some tok.consumed_at ≡ false
  pub to_hub : tok.hub_id ≡ some h.id
  pub hub_row : get_hub_by_id db h.id ≡ some h
  pub unseen : lookup_device_by_pubkey db (trim_space i.pubkey) ≡ none
  pub fresh : any (λ (d : Device). str_eq d.device_id c.device_id) db.devices ≡ false

module _ (w : World) (c : Call) (i : RegisterInput) (tok : Token) (h : Hub) (db : Db)
    (path : Reachable w db) (call : IsFirstCall w c i tok h db) where
  first_call-eq : do_allocate w c i db ≡ allocate_device w c i tok h db
  unfolding do_allocate claim
  first_call-eq =
      simp (call.row, call.to_hub, call.hub_row, claim, call.unseen, call.unused, call.role) refl

  known : find (λ (r : Hub). r.id == h.id) db.hubs ≡ some h
  unfolding get_hub_by_id
  known = call.hub_row

  -- On a reached database, the first call with an unused device token, for a key that no live
  -- device has and with a device id that no row has, either adds a device or ends with an error
  -- that is meant: the hub or its network is not ready, the indexes have run out, or the slug of
  -- a new site is another site's.
  pub reachable_registration-Ends :
      Ends (Joined w c i tok h db) (λ e. device_refusal e ≡ true) (do_allocate w c i db)
  reachable_registration-Ends = rw first_call-eq (
      allocate_device-Ends w c i tok h db (Reachable-IsSound w db path).addressed known call.unseen
        call.fresh)

  own_mesh : (m : MeshNet) × (parse_mesh_cidr w h.mesh_cidr ≡ ok m)
  own_mesh =
      let o =
        find-All (HasOwnAddress w) (λ (r : Hub). r.id == h.id) db.hubs h
          (Reachable-IsSound w db path).addresses known in
      (o.mesh, o.parsed)

  site_known :
      (at : Db × Site)
      → resolve_or_create_site w h.id i c.now db ≡ ok at
      → Ends (AtSite db h.id) (λ _. ⊥) (resolve_or_create_site w h.id i c.now db)
  site_known at e = rw e (
      returns at (
        Ends-ok (AtSite db h.id) SiteRefusal (resolve_or_create_site w h.id i c.now db) at e
          (resolve_or_create_site-Ends db h.id w i c.now)))

  index_found :
      (r : Db × Site)
      → length (used_d_indexes r.0 h.id) < 253
      → Ends
          (IsFree w c i tok h db
            (Reachable-IsSound w db path).addressed
            known
            call.unseen
            call.fresh
            r)
          (λ _. ⊥)
          (pick_free_d_index r.0 h.id)
  index_found r room =
      let (k, e) = pick_free_d_index_found r.0 h.id room in
      let s =
        subst (Searched (d_index_taken r.0 h.id) 2 254 site_exhausted) e
          (pick_free_d_index_lem r.0 h.id) in
      rw e (returns k (s.0, omega (arith, s.1), s.2))

  -- On a reached database, the first call with an unused device token of a hub that is up, for a
  -- key that no live device has and with a device id that no row has, succeeds where its site is
  -- found or made and fewer than 253 live devices are then at the hub's sites: a device is added
  -- with a free address of the hub's network, at index 2 or above, the token is its own, and the
  -- database is again well addressed.
  pub reachable_registration_succeeds :
      (at : Db × Site)
      → configured h ≡ true
      → resolve_or_create_site w h.id i c.now db ≡ ok at
      → length (used_d_indexes at.0 h.id) < 253
      → (r : Db × Allocated) × (do_allocate w c i db ≡ ok r) × Joined w c i tok h db r
  reachable_registration_succeeds at up site room = Ends-total (
      rw first_call-eq (
        allocate_device-steps w c i tok h db (Reachable-IsSound w db path).addressed known
          call.unseen call.fresh (λ _. ⊥) (λ down. cc)
          (let (m, parsed) = own_mesh in rw parsed (returns m parsed)) (site_known at site)
          (λ r same. index_found r (
            subst (λ (x : Db × Site). length (used_d_indexes x.0 h.id) < 253)
              (ok_inj at r (sym site ∙ same)) room))))
