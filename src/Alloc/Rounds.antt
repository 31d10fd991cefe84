-- ===== src/Alloc/Rounds.antt =====
-- What a hub's registration makes of the hub.
use polar_wg.Errors.{◌>>=◌, >>=-eq-ok}
use polar_wg.Alloc.Sites.{lookup_site_by_slug_in_hub, insert_site, get_or_create_site}
use polar_wg.Alloc.{
  update_where, hub, no_rows, get_device_by_id, or_fail, false, hub_device_ip, new_device, append,
  hub_already_bound, is_some, not, require, hub_device_endpoint, is_empty, trim_space, some, Hub,
  Token, Allocated, get_hub_by_id, RegisterInput, Site, ok, consume_token, String, Call,
  update_hub_bind, Db, ℕ, World, Device, bind_hub_device,
}
use polar_wg.Store.Devices.{insert_device}
use polar_wg.Store.Hubs.{bind, update_hub_bind, get_hub_by_id}
use polar_wg.Store.Tokens.{consume_token}
use polar_wg.Base.{refl, ==_refl, find-update_where, ◌==◌, ap, find, ◌∙◌, arith, ◌≡◌, if◌then◌else◌}

get_or_create_site-kept :
    (hub_id : ℕ) (slug : String) (s_index : ℕ) (label public_ip lan_cidr : String) (now : ℕ)
    (db : Db) (r : Db × Site)
    → get_or_create_site hub_id slug s_index label public_ip lan_cidr now db ≡ ok r
    → (r.0.hubs ≡ db.hubs) × (r.0.devices ≡ db.devices) × (r.0.next_device ≡ db.next_device)
unfolding get_or_create_site insert_site
get_or_create_site-kept hub_id slug s_index label public_ip lan_cidr now db r done = ground arith

insert_device-kept :
    (d : Device) (db : Db) (r : Db × Device)
    → insert_device d db ≡ ok r
    → (r.0.hubs ≡ db.hubs) × (r.1.id ≡ db.next_device)
unfolding insert_device
insert_device-kept d db r done = ground arith

-- The last steps: the hub's row is written and read back.
closing :
    (c : Call) (i : RegisterInput) (tok : Token) (h : Hub) (slug : String) (ins : Db × Device)
    (r : Db × Allocated)
    → find (λ (x : Hub). x.id == h.id) ins.0.hubs ≡ some h
    → (do
      let db4 =
          consume_token tok.id c.now ins.1.id
            (update_hub_bind h.id i.pubkey (hub_device_endpoint i) ins.1.id c.now ins.0)
      dev ← or_fail (get_device_by_id db4 ins.1.id) no_rows
      bound ← or_fail (get_hub_by_id db4 h.id) no_rows
      ok (
        db4,
        record {
          device = record dev { hub_slug = h.slug; site_slug = slug };
          hub = bound;
          role = hub;
          plaintext_token = i.token;
          token_expires_at = tok.expires_at;
        },
      ))
      ≡ ok r
    → (r.1.hub.bound_device_id ≡ some ins.1.id)
      × (r.1.hub.pubkey ≡ trim_space i.pubkey)
      × (r.1.hub.endpoint ≡ (if is_empty h.endpoint then hub_device_endpoint i else h.endpoint))
      × (get_hub_by_id r.0 h.id ≡ some r.1.hub)
unfolding update_hub_bind consume_token get_hub_by_id
closing c i tok h slug ins r row done =
    let back : find (λ (x : Hub). x.id == h.id)
          (update_where (λ (x : Hub). x.id == h.id)
            (bind i.pubkey (hub_device_endpoint i) ins.1.id c.now) ins.0.hubs)
        ≡ some (bind i.pubkey (hub_device_endpoint i) ins.1.id c.now h) =
      find-update_where _ _ _ (λ a. refl) ins.0.hubs h row ∙ rw (==_refl h.id) in
    ground (arith, back)

-- A registration that binds a hub of the table leaves the hub's row with the id of the new
-- device, the device's key, and the endpoint that it had or, if it had none, the observed one;
-- the row is the one that is returned.
pub bind_hub_device-bound :
    (w : World) (c : Call) (i : RegisterInput) (tok : Token) (h : Hub) (db : Db)
    (r : Db × Allocated)
    → get_hub_by_id db h.id ≡ some h
    → bind_hub_device w c i tok h db ≡ ok r
    → (r.1.hub.bound_device_id ≡ some db.next_device)
      × (r.1.hub.pubkey ≡ trim_space i.pubkey)
      × (r.1.hub.endpoint ≡ (if is_empty h.endpoint then hub_device_endpoint i else h.endpoint))
      × (get_hub_by_id r.0 h.id ≡ some r.1.hub)
unfolding bind_hub_device get_or_create_site insert_site insert_device update_hub_bind consume_token
    lookup_site_by_slug_in_hub get_hub_by_id
bind_hub_device-bound w c i tok h db r row done =
    let (_, _, free) =
      >>=-eq-ok (require (not (is_some h.bound_device_id)) hub_already_bound) _ r done in
    let (at, sited, rest) =
      >>=-eq-ok
        (get_or_create_site h.id (append h.slug ":hub") 0 "hub site" i.public_ip "" c.now db) _ r
        free in
    let (ins, inserted, rest') =
      >>=-eq-ok
        (insert_device
          (new_device w c i tok h.id at.1.id 1 (hub_device_ip w h) (hub_device_endpoint i) false)
          at.0)
        _ r rest in
    let (hubs, _, next) =
      get_or_create_site-kept h.id (append h.slug ":hub") 0 "hub site" i.public_ip "" c.now db at
        sited in
    let (hubs', id) =
      insert_device-kept
        (new_device w c i tok h.id at.1.id 1 (hub_device_ip w h) (hub_device_endpoint i) false) at.0
        ins inserted in
    let shown = closing c i tok h at.1.slug ins r (rw (hubs', hubs) row) rest' in
    (shown.0 ∙ ap some (id ∙ next), shown.1, shown.2, shown.3)
