-- ===== src/Examples/Rounds.antt =====
-- A hub's own registration, and the search for an index.
use polar_wg.Alloc.Rounds.{bind_hub_device-bound}
use polar_wg.Errors.{site_exhausted, ok}
use polar_wg.Alloc.Input.{Allocated}
use polar_wg.Examples.Data.{
  secret, hub_site, token, gateway, db1, unbound, call, home, laptop_row, world, empty_db,
}
use polar_wg.Alloc.Free.{pick_free_d_index_lem, d_index_taken, Searched}
use polar_wg.Store.Hubs.{update_hub_bind, get_hub_by_id}
use polar_wg.Store.Devices.{insert_device, get_device_by_id}
use polar_wg.Alloc.Index.{pick_free_d_index}
use polar_wg.Net.{host_port}
use polar_wg.Store.Tokens.{consume_token}
use polar_wg.Store.Rows.{Role, Device, Hub, Db}
use polar_wg.Alloc.Sites.{lookup_site_by_slug_in_hub, insert_site, get_or_create_site}
use polar_wg.Alloc.{hub_device_ip, hub_device_endpoint, bind_hub_device}
use polar_wg.Base.{
  none, refl, is_empty, [], ◌∷◌, some, ◌≡◌, trim_space, trim_right, trim_left, itoa, is_space,
  if◌then◌else◌,
}

abbrev gateway_row : Device
gateway_row = record laptop_row {
  id = 1;
  site_id = 1;
  d_index = 1;
  device_ip = "100.64.0.1";
  pubkey = "hubkey";
  hostname = "gw";
  wg_endpoint = "203.0.113.7:51820";
  token_hash = "#hubtoken";
}

abbrev bound_home : Hub
bound_home = record home { updated_at = 20 }

abbrev bound : Db × Allocated
bound = (
  record empty_db {
    hubs = bound_home ∷ [];
    sites = record hub_site { created_at = 20 } ∷ [];
    tokens =
        record (token 1 "#hubtoken" Role.hub) {
          consumed_at = some 20;
          consumed_by_device_id = some 1;
        }
        ∷ secret
        ∷ [];
    devices = gateway_row ∷ [];
    next_site = 2;
    next_device = 2;
  },
  record {
    device = record gateway_row { site_slug = "home:hub"; hub_slug = "home" };
    hub = bound_home;
    role = Role.hub;
    plaintext_token = "hubtoken";
    token_expires_at = none;
  },
)

binds :
    bind_hub_device world call gateway (token 1 "#hubtoken" Role.hub) unbound empty_db ≡ ok bound
unfolding bind_hub_device get_or_create_site lookup_site_by_slug_in_hub insert_site
    hub_device_endpoint hub_device_ip host_port itoa insert_device update_hub_bind consume_token
    get_device_by_id get_hub_by_id trim_space trim_right trim_left is_space
binds = refl

unbound_row : get_hub_by_id empty_db 1 ≡ some unbound
unfolding get_hub_by_id
unbound_row = refl

bind_hub_device-bound_example :
    (bound_home.bound_device_id ≡ some 1)
    × (bound_home.pubkey ≡ trim_space gateway.pubkey)
    × (bound_home.endpoint
        ≡ (if is_empty unbound.endpoint then hub_device_endpoint gateway else unbound.endpoint))
    × (get_hub_by_id bound.0 1 ≡ some bound_home)
bind_hub_device-bound_example =
    bind_hub_device-bound world call gateway (token 1 "#hubtoken" Role.hub) unbound empty_db bound
      unbound_row binds

pick_free_d_index_lem_example :
    Searched (d_index_taken db1 1) 2 254 site_exhausted (pick_free_d_index db1 1)
pick_free_d_index_lem_example = pick_free_d_index_lem db1 1
