-- ===== src/Alloc/Joining.antt =====
-- What a device registration does to the database, and the only ways in which it can be refused.
use polar_wg.Alloc.Grown.{
  AtSite-IsAddressed, joined-IsAddressed, joined_read_back, joined, insert_device_lem,
}
use polar_wg.Alloc.{resolve_or_create_site, observed_endpoint, allocate_device, new_device}
use polar_wg.Alloc.Free.{pick_free_d_index_lem, Searched, d_index_taken}
use polar_wg.Errors.Ends.{Ends-known, Ends-mono, Ends-guard, Ends-bind, fails, returns, Ends}
use polar_wg.Alloc.Input.{Allocated, RegisterInput, Call}
use polar_wg.Base.{
  inr, find-any, ap, refl, any-All, inl, All-any, trim_space, Bool, String, ℕ, suc, ◌≤◌, ◌≡◌, true,
  false, ◌&&◌, none, some, [], ◌∷◌, ◌++◌, arith, ◌==◌, str_eq, any, find, update_where, All-mono,
}
use polar_wg.Alloc.Index.{pick_free_d_index}
use polar_wg.Errors.{
  mesh_cidr_required, invalid_cidr, not_ipv4, site_exhausted, site_slots_exhausted,
  hub_not_configured, sites_slug, hub_not_configured, site_exhausted, violates, Result, err, Error,
  ok,
}
use polar_wg.Net.{device_ip, parse_mesh_cidr, MeshNet, World}
use polar_wg.Store.Rows.{configured, Hub, Site, Token, Device, Db, is_live}
use polar_wg.Store.Tokens.{consume_token, consume}
use polar_wg.Store.Devices.{lookup_device_by_pubkey, insert_device, live_where}
use polar_wg.Alloc.Addressing.{slot_free, address_free, hub_mesh, Placed, IsAddressed}
use polar_wg.Alloc.Siting.{resolve_or_create_site-Ends, SiteRefusal, AtSite}

-- The errors of a device registration that are meant: the hub or its network is not ready, the
-- indexes have run out, or the slug of the new site is another site's.
abbrev pub device_refusal : Error → Bool
device_refusal hub_not_configured = true
device_refusal mesh_cidr_required = true
device_refusal invalid_cidr = true
device_refusal not_ipv4 = true
device_refusal site_exhausted = true
device_refusal site_slots_exhausted = true
device_refusal (violates sites_slug) = true
device_refusal _ = false

-- A device has been added, at a free address of the hub's network, and the token is its own.
pub record Joined (w : World) (c : Call) (i : RegisterInput) (tok : Token) (h : Hub) (db : Db)
    (r : Db × Allocated) : Type 0 where
  pub device : Device
  pub identity : device.id ≡ db.next_device
  pub pubkey : device.pubkey ≡ trim_space i.pubkey
  pub token_hash : device.token_hash ≡ w.hash i.token
  pub live : is_live device ≡ true
  pub of_hub : device.hub_id ≡ h.id
  pub not_hub_index : 2 ≤ device.d_index
  pub devices : r.0.devices ≡ db.devices ++ device ∷ []
  pub hubs : r.0.hubs ≡ db.hubs
  pub next_hub : r.0.next_hub ≡ db.next_hub
  pub tokens :
      r.0.tokens
      ≡ update_where (λ (t : Token). t.id == tok.id) (consume c.now db.next_device) db.tokens
  pub shown : (r.1.device.id ≡ device.id) × (r.1.device.device_ip ≡ device.device_ip)
  pub addressed : IsAddressed w r.0

abbrev ParsedFrom : World → String → MeshNet → Type 0
ParsedFrom w s m = parse_mesh_cidr w s ≡ ok m

parse_mesh_cidr-Ends :
    (w : World) (s : String)
    → Ends (ParsedFrom w s) (λ e. device_refusal e ≡ true) (parse_mesh_cidr w s)
unfolding parse_mesh_cidr
parse_mesh_cidr-Ends w s = go (parse_mesh_cidr w s) refl
  where
    refused : (e : Error) → parse_mesh_cidr w s ≡ err e → device_refusal e ≡ true
    refused e h = ground arith

    go :
        (r : Result MeshNet)
        → parse_mesh_cidr w s ≡ r
        → Ends (ParsedFrom w s) (λ e. device_refusal e ≡ true) r
    go (ok m) h = returns m h
    go (err e) h = fails e (refused e h)

module _ (w : World) (c : Call) (i : RegisterInput) (tok : Token) (h : Hub) (db : Db)
    (v : IsAddressed w db) (known : find (λ (r : Hub). r.id == h.id) db.hubs ≡ some h)
    (unseen : lookup_device_by_pubkey db (trim_space i.pubkey) ≡ none)
    (fresh : any (λ (r : Device). str_eq r.device_id c.device_id) db.devices ≡ false) where
  of_hub :
      (mesh : MeshNet) → parse_mesh_cidr w h.mesh_cidr ≡ ok mesh → hub_mesh w db.hubs h.id ≡ ok mesh
  of_hub mesh e = rw known e

  key_free : live_where (λ r. str_eq r.pubkey (trim_space i.pubkey)) db ≡ false
  unfolding lookup_device_by_pubkey
  key_free =
      All-any (λ r. is_live r && str_eq r.pubkey (trim_space i.pubkey)) db.devices
        (All-mono (λ r. (str_eq r.pubkey (trim_space i.pubkey) && is_live r) ≡ false)
          (λ r. (is_live r && str_eq r.pubkey (trim_space i.pubkey)) ≡ false) (λ r e. ground arith)
          db.devices
          (any-All (λ r. str_eq r.pubkey (trim_space i.pubkey) && is_live r) db.devices
            (find-any _ db.devices unseen)))

  -- The row of the new device.
  abbrev row_at : MeshNet → Db × Site → ℕ → Device
  row_at mesh r k =
      record (new_device w c i tok h.id r.1.id k (device_ip mesh k) (observed_endpoint i)
        i.isolated) { id = r.0.next_device }

  module _ (mesh : MeshNet) (r : Db × Site) (k : ℕ)
      (parsed : parse_mesh_cidr w h.mesh_cidr ≡ ok mesh) (at : AtSite db h.id r) (low : 2 ≤ k)
      (high : k ≤ 254) (free : d_index_taken r.0 h.id k ≡ false) where
    row-Placed : Placed w r.0 (row_at mesh r k)
    row-Placed = record {
      mesh = mesh;
      of_hub = rw at.hubs (of_hub mesh parsed);
      ip = refl;
      low = omega arith;
      high = high;
      site = at.member;
    }

    inserted :
        insert_device
          (new_device w c i tok h.id r.1.id k (device_ip mesh k) (observed_endpoint i) i.isolated)
          r.0
        ≡ ok (
          record r.0 {
            devices = r.0.devices ++ row_at mesh r k ∷ [];
            next_device = suc r.0.next_device;
          },
          row_at mesh r k,
        )
    inserted =
        insert_device_lem _ r.0 (omega arith) high (rw at.devices fresh)
          (address_free w r.0 h.id mesh k (AtSite-IsAddressed w db h.id r at v)
            (rw at.hubs (of_hub mesh parsed)) free high)
          (rw at.devices key_free) (slot_free r.0 h.id r.1.id k at.member free)

    new_joined :
        (a : Allocated)
        → (a.device.id ≡ r.0.next_device) × (a.device.device_ip ≡ device_ip mesh k)
        → Joined w c i tok h db (joined r.0 (row_at mesh r k) tok.id c.now, a)
    new_joined a shown = record {
      device = row_at mesh r k;
      identity = at.next_device;
      pubkey = refl;
      token_hash = refl;
      live = refl;
      of_hub = refl;
      not_hub_index = low;
      devices = ap (λ l. l ++ row_at mesh r k ∷ []) at.devices;
      hubs = at.hubs;
      next_hub = at.next_hub;
      tokens = rw (at.tokens, at.next_device);
      shown = shown;
      addressed =
          joined-IsAddressed w r.0 (row_at mesh r k) tok.id c.now refl row-Placed
            (AtSite-IsAddressed w db h.id r at v);
    }

  -- An index that a device can have, and that no live device of the hub has.
  abbrev pub IsFree : Db × Site → ℕ → Type 0
  IsFree r k = (2 ≤ k) × (k ≤ 254) × (d_index_taken r.0 h.id k ≡ false)

  picked :
      (r : Db × Site) (p : Result ℕ)
      → Searched (d_index_taken r.0 h.id) 2 254 site_exhausted p
      → Ends (IsFree r) (λ e. device_refusal e ≡ true) p
  picked r (ok k) s = returns k (s.0, omega (arith, s.1), s.2)
  picked r (err e) s = fails e (rw s.0)

  site_refused : (e : Error) → SiteRefusal e → device_refusal e ≡ true
  site_refused e (inl h) = rw h
  site_refused e (inr h) = rw h

  -- The registration ends as its four steps do: with a new device, or with one of their errors.
  pub allocate_device-steps :
      (E : Error → Type 0)
      → (configured h ≡ false → E hub_not_configured)
      → Ends (ParsedFrom w h.mesh_cidr) E (parse_mesh_cidr w h.mesh_cidr)
      → Ends (AtSite db h.id) E (resolve_or_create_site w h.id i c.now db)
      → ((r : Db × Site)
          → resolve_or_create_site w h.id i c.now db ≡ ok r
          → Ends (IsFree r) E (pick_free_d_index r.0 h.id))
      → Ends (Joined w c i tok h db) E (allocate_device w c i tok h db)
  unfolding allocate_device consume_token
  allocate_device-steps E unready net site index =
      Ends-bind _ (Ends-guard E (configured h) hub_not_configured unready) λ _ _.
        Ends-bind _ net λ mesh parsed. Ends-bind _ (Ends-known site) λ r at.
          Ends-bind _ (index r at.0) λ k fits.
            rw
              (
                inserted mesh r k parsed at.1 fits.0 fits.1 fits.2,
                joined_read_back r.0 (row_at mesh r k) tok.id c.now refl
                    (AtSite-IsAddressed w db h.id r at.1 v).fresh,
              )
              (returns _ (new_joined mesh r k parsed at.1 fits.0 fits.1 fits.2 _ (refl, refl)))

  -- On a well-addressed database, the registration of a key that no live device has, with a
  -- device id that no row has, on a hub of the table, ends in one of two ways: a device with the
  -- key is added to the hub at index 2 or above, the token is marked as used by it and the
  -- database is again well addressed; or the error is one that is meant (the hub or its network
  -- is not ready, the indexes have run out, the slug of a new site is another site's), and no
  -- other constraint of the schema is violated.
  pub allocate_device-Ends :
      Ends (Joined w c i tok h db) (λ e. device_refusal e ≡ true) (allocate_device w c i tok h db)
  allocate_device-Ends =
      allocate_device-steps (λ e. device_refusal e ≡ true) (λ _. refl)
        (parse_mesh_cidr-Ends w h.mesh_cidr)
        (Ends-mono site_refused (resolve_or_create_site-Ends db h.id w i c.now))
        (λ r _. picked r (pick_free_d_index r.0 h.id) (pick_free_d_index_lem r.0 h.id))
