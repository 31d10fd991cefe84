-- ===== src/Steps/Registration.antt =====
-- A registration keeps the invariant, whichever way it takes.
use polar_wg.Steps.Statements.{refresh_existing_device-Alike}
use polar_wg.Alloc.Joining.{Joined}
use polar_wg.Steps.Frame.{hubs-Alike, Alike-IsSound}
use polar_wg.Errors.Ends.{Ends-last, returns, Ends-ok, anything, Ends-bind, Ends}
use polar_wg.Alloc.Grown.{joined-IsAddressed, joined, AtSite-IsAddressed}
use polar_wg.Store.Tokens.{lookup_unused_token, consume_token}
use polar_wg.Alloc.Siting.{found-AtSite, grown-AtSite, AtSite}
use polar_wg.Steps.{HaveTwoIds, HasOwnAddress, IsSound}
use polar_wg.Alloc.Addressing.{Placed, IsAddressed}
use polar_wg.Alloc.Input.{Allocated, RegisterInput, Call}
use polar_wg.Store.Rows.{Role, Hub, Token, Site, Db, Device}
use polar_wg.Net.{device_ip, hub_wg_ip_from_cidr, World}
use polar_wg.Store.Devices.{get_device_by_id, lookup_device_by_pubkey, insert_device}
use polar_wg.Alloc.Sites.{
  with_site, new_site, lookup_site_by_slug_in_hub, insert_site, get_or_create_site,
}
use polar_wg.Store.Hubs.{bind, update_hub_bind, get_hub_by_id}
use polar_wg.Alloc.{
  allocate_device, by_role, hub_device_endpoint, hub_device_ip, new_device, bind_hub_device, claim,
  do_allocate,
}
use polar_wg.Base.{
  Bool-cases, Pairs, is_empty, inl, inr, is_some, not, none, find-test, trim_space, true, inr, inl,
  find-All, suc, false, some, ◌&&◌, arith, [], ◌==◌, str_eq, any, Option-cases, ◌∷◌, find, ◌++◌,
  ◌≡◌, All, String, ℕ,
}
use polar_wg.Errors.{
  no_rows, token_invalid, hub_already_bound, require, ok_inj, or_fail-eq-ok, token_no_hub, or_fail,
  ok,
}
use polar_wg.Base.{refl, append}
use polar_wg.Errors.Ends.{returns}
use polar_wg.Alloc.Joining.{device_refusal, allocate_device-Ends}
use mathlib.Core.Path.{subst, sym}

insert_site-eq :
    (hub_id : ℕ) (slug : String) (s_index : ℕ) (label public_ip lan_cidr : String) (now : ℕ)
    (db : Db) (r : Db × Site)
    → insert_site hub_id slug s_index label public_ip lan_cidr now db ≡ ok r
    → (let row = new_site db hub_id slug s_index label public_ip lan_cidr now in
        (with_site db row, row))
      ≡ r
unfolding insert_site
insert_site-eq hub_id slug s_index label public_ip lan_cidr now db r done = ground arith

get_or_create_site-AtSite :
    (hub_id : ℕ) (slug : String) (s_index : ℕ) (label public_ip lan_cidr : String) (now : ℕ)
    (db : Db) (r : Db × Site)
    → get_or_create_site hub_id slug s_index label public_ip lan_cidr now db ≡ ok r
    → AtSite db hub_id r
unfolding get_or_create_site lookup_site_by_slug_in_hub
get_or_create_site-AtSite hub_id slug s_index label public_ip lan_cidr now db r done =
    elim (Option-cases (find (λ (s : Site). s.hub_id == hub_id && str_eq s.slug slug) db.sites)) [
      | inl e ↦
          subst (AtSite db hub_id)
            (insert_site-eq hub_id slug s_index label public_ip lan_cidr now db r
              (rw (get_or_create_site, e) at done))
            (grown-AtSite db hub_id (new_site db hub_id slug s_index label public_ip lan_cidr now)
              refl)
      | inr (s, e) ↦
          subst (AtSite db hub_id) (ok_inj (db, s) r (rw (get_or_create_site, e) at done)) (
            found-AtSite db hub_id (λ (s : Site). s.hub_id == hub_id && str_eq s.slug slug) s
              (λ r h. ground arith) e)
    ]

insert_device-eq :
    (d : Device) (db : Db) (r : Db × Device)
    → insert_device d db ≡ ok r
    → (
      record db {
        devices = db.devices ++ record d { id = db.next_device } ∷ [];
        next_device = suc db.next_device;
      },
      record d { id = db.next_device },
    )
      ≡ r
unfolding insert_device
insert_device-eq d db r done = ground arith

-- The hubs are the same, and the addressing has been shown.
same_hubs-IsSound :
    (w : World) (db db' : Db)
    → db'.hubs ≡ db.hubs
    → db'.next_hub ≡ db.next_hub
    → IsAddressed w db'
    → IsSound w db
    → IsSound w db'
same_hubs-IsSound w db db' eh en a v = record {
  addressed = a;
  numbered = rw (eh, en) v.numbered;
  counted = rw en v.counted;
  addresses = subst (All (HasOwnAddress w)) (sym eh) v.addresses;
  distinct = subst (Pairs HaveTwoIds) (sym eh) v.distinct;
}

module _ (w : World) (c : Call) (i : RegisterInput) (tok : Token) (h : Hub) (db : Db)
    (v : IsSound w db) (known : find (λ (r : Hub). r.id == h.id) db.hubs ≡ some h) where
  AtSite-IsSound : (r : Db × Site) → AtSite db h.id r → IsSound w r.0
  AtSite-IsSound r at =
      same_hubs-IsSound w db r.0 at.hubs at.next_hub (AtSite-IsAddressed w db h.id r at v.addressed)
        v

  own : HasOwnAddress w h
  own = find-All (HasOwnAddress w) (λ (r : Hub). r.id == h.id) db.hubs h v.addresses known

  own_device_ip : hub_device_ip w h ≡ device_ip own.mesh 1
  unfolding hub_device_ip hub_wg_ip_from_cidr
  own_device_ip = elim (Bool-cases (is_empty h.wg_ip)) [
    | inl e ↦ rw (hub_device_ip, e, own.parsed) refl
    | inr e ↦ rw (hub_device_ip, e) own.own
  ]

  -- The row of the hub's own device.
  abbrev hub_row : Db × Site → Device
  hub_row at =
      record (new_device w c i tok h.id at.1.id 1 (hub_device_ip w h) (hub_device_endpoint i)
        false) { id = at.0.next_device }

  hub_row-Placed : (at : Db × Site) → AtSite db h.id at → Placed w at.0 (hub_row at)
  hub_row-Placed at s = record {
    mesh = own.mesh;
    of_hub = rw (s.hubs, known) own.parsed;
    ip = own_device_ip;
    low = omega arith;
    high = omega arith;
    site = s.member;
  }

  bound-IsSound :
      (at : Db × Site) (r : Db × Device)
      → AtSite db h.id at
      → insert_device
          (new_device w c i tok h.id at.1.id 1 (hub_device_ip w h) (hub_device_endpoint i) false)
          at.0
        ≡ ok r
      → IsSound w (
          consume_token tok.id c.now r.1.id
            (update_hub_bind h.id i.pubkey (hub_device_endpoint i) r.1.id c.now r.0))
  unfolding consume_token update_hub_bind
  bound-IsSound at r s done =
      let row = hub_row at in
      let placed : IsSound w (joined at.0 row tok.id c.now) =
        same_hubs-IsSound w at.0 (joined at.0 row tok.id c.now) refl refl
          (joined-IsAddressed w at.0 row tok.id c.now refl (hub_row-Placed at s)
            (AtSite-IsSound at s).addressed)
          (AtSite-IsSound at s) in
      subst
        (λ (r : Db × Device). IsSound w (
          consume_token tok.id c.now r.1.id
            (update_hub_bind h.id i.pubkey (hub_device_endpoint i) r.1.id c.now r.0)))
        (insert_device-eq
          (new_device w c i tok h.id at.1.id 1 (hub_device_ip w h) (hub_device_endpoint i) false)
          at.0 r done)
        (Alike-IsSound w (joined at.0 row tok.id c.now) _
          (hubs-Alike w (λ (x : Hub). x.id == h.id)
            (bind i.pubkey (hub_device_endpoint i) at.0.next_device c.now)
            (joined at.0 row tok.id c.now)
            λ x. record { id = refl; mesh_cidr = refl; wg_ip = refl })
          placed)

  bind_hub_device-IsSound :
      Ends (λ (r : Db × Allocated). IsSound w r.0) (λ _. Unit) (bind_hub_device w c i tok h db)
  unfolding bind_hub_device
  bind_hub_device-IsSound =
      Ends-bind _ (anything (require (not (is_some h.bound_device_id)) hub_already_bound)) λ _ _.
        Ends-bind _
          (anything
            (get_or_create_site h.id (append h.slug ":hub") 0 "hub site" i.public_ip "" c.now db))
          λ at made.
            Ends-bind _
              (anything (
                insert_device
                  (new_device w c i tok h.id at.1.id 1 (hub_device_ip w h) (hub_device_endpoint i)
                    false)
                  at.0))
              λ r done.
                let sound =
                  bound-IsSound at r
                    (get_or_create_site-AtSite h.id (append h.slug ":hub") 0 "hub site" i.public_ip
                      "" c.now db at made)
                    done in
                Ends-bind _ (anything (or_fail (get_device_by_id _ r.1.id) no_rows)) λ _ _.
                  Ends-bind _ (anything (or_fail (get_hub_by_id _ h.id) no_rows))
                    λ _ _. returns _ sound

  module _ (fresh : any (λ (r : Device). str_eq r.device_id c.device_id) db.devices ≡ false) where
    claim-IsSound : (r : Db × Allocated) → claim w c i tok h db ≡ ok r → IsSound w r.0
    unfolding claim
    claim-IsSound r done = elim (Option-cases (lookup_device_by_pubkey db (trim_space i.pubkey))) [
      | inr (d, e) ↦
          Alike-IsSound w db r.0
            (refresh_existing_device-Alike w d i tok h db r (ground (arith, e))) v
      | inl e ↦ by_role_case tok.role e (ground (arith, e))
    ]
      where
        by_role_case :
            (role : Role)
            → lookup_device_by_pubkey db (trim_space i.pubkey) ≡ none
            → by_role w c i tok h db role ≡ ok r
            → IsSound w r.0
        by_role_case Role.hub unseen done =
            Ends-ok (λ (r : Db × Allocated). IsSound w r.0) (λ _. Unit)
              (bind_hub_device w c i tok h db) r done bind_hub_device-IsSound
        by_role_case Role.device unseen done =
            let j =
              Ends-ok (Joined w c i tok h db) (λ e. device_refusal e ≡ true)
                (allocate_device w c i tok h db) r done
                (allocate_device-Ends w c i tok h db v.addressed known unseen fresh) in
            same_hubs-IsSound w db r.0 j.hubs j.next_hub j.addressed v

-- A registration that succeeds, with a device id that no row has, leaves a sound database.
pub do_allocate-IsSound :
    (w : World) (c : Call) (i : RegisterInput) (db : Db) (r : Db × Allocated)
    → IsSound w db
    → any (λ (r : Device). str_eq r.device_id c.device_id) db.devices ≡ false
    → do_allocate w c i db ≡ ok r
    → IsSound w r.0
unfolding do_allocate get_hub_by_id
do_allocate-IsSound w c i db r v fresh done =
    Ends-ok (λ (r : Db × Allocated). IsSound w r.0) (λ _. Unit) (do_allocate w c i db) r done
      (Ends-bind _ (anything (lookup_unused_token w i.token c.now db)) λ found _.
        Ends-bind _ (anything (or_fail found token_invalid)) λ tok _.
          Ends-bind _ (anything (or_fail tok.hub_id token_no_hub)) λ hub_id _.
            Ends-bind _ (anything (or_fail (get_hub_by_id db hub_id) token_no_hub)) λ h hub_row.
              Ends-last (λ (r : Db × Allocated). IsSound w r.0) (claim w c i tok h db)
                (claim-IsSound w c i tok h db v (by_own_id hub_id h hub_row) fresh))
  where
    by_own_id :
        (hub_id : ℕ) (h : Hub)
        → or_fail (get_hub_by_id db hub_id) token_no_hub ≡ ok h
        → find (λ (r : Hub). r.id == h.id) db.hubs ≡ some h
    by_own_id hub_id h e =
        let found : find (λ (r : Hub). r.id == hub_id) db.hubs ≡ some h =
          or_fail-eq-ok (find (λ (r : Hub). r.id == hub_id) db.hubs) token_no_hub h e in
        let hit : (h.id == hub_id) ≡ true =
          find-test (λ (r : Hub). r.id == hub_id) db.hubs h found in
        let same : h.id ≡ hub_id = ground arith in
        subst (λ k. find (λ (r : Hub). r.id == k) db.hubs ≡ some h) (sym same) found
