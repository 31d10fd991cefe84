-- ===== src/Examples/Services.antt =====
-- The theorems on the programs of the same machine and on the zone at the sample database.
use polar_wg.Mint.Draw.{new_token_plaintext, new_device_id, hex_text}
use polar_wg.Routing.Peers.{spokes_rev}
use polar_wg.Dns.Labels.{dns_zone-entries, is_label}
use polar_wg.Cloud.Expiry.{internal_mint-expiry}
use polar_wg.Cloud.Release.{internal_release_again}
use polar_wg.Dns.{
  DnsEntry, unique_label, squash, sanitize_hostname, host_label, dns_entries, dns_zone, Zone,
}
use polar_wg.Examples.Data.{hub_device, home, used, secret, laptop_row, token, db1, db0, world}
use polar_wg.Cloud.{
  max_ttl, Fresh, token_ttl, token_device, release_token, release_device, internal_token,
  internal_release, internal_mint,
}
use polar_wg.Store.Tokens.{is_past, revoke_token, insert_token, get_token_by_id}
use polar_wg.Store.Hubs.{get_hub_by_slug, get_hub_by_id}
use polar_wg.Store.Devices.{list_devices_in_hub, mark_device_removed, get_device_by_id}
use polar_wg.Mint.{create_token_for_device}
use polar_wg.Store.Rows.{is_live, Device, Role, Hub, Db, Token, configured}
use polar_wg.Api.{clear_if_bound}
use polar_wg.Base.{
  ◌++◌, map, All, trim, to_lower, prefix, lower_char, itoa_fuel, itoa, arith, false, [], ◌+◌, ◌≤◌,
  is_some, ◌∷◌, ◌<◌, String, some, ◌≡◌, Option, true, ℕ, trim_space, trim_right, trim_left,
  time_add, is_space, duration, refl,
}
use polar_wg.Errors.{ok}

abbrev released : Db × Option (String × String)
released = (
  record db1 {
    tokens = token 1 "#hubtoken" Role.hub ∷ record used { revoked_at = some 30 } ∷ [];
    devices = hub_device ∷ record laptop_row { removed_at = some 30 } ∷ [];
  },
  some ("dev_2", "100.64.0.2"),
)

release_done : internal_release true 2 30 db1 ≡ ok released
unfolding internal_release internal_token get_token_by_id token_device get_device_by_id
    release_device mark_device_removed clear_if_bound get_hub_by_id release_token revoke_token
release_done = refl

internal_release_again_example :
    (u : Token) × (get_token_by_id released.0 2 ≡ some u)
    × (is_some u.revoked_at ≡ true)
    × ((d : Device) → token_device u released.0 ≡ some d → is_live d ≡ false)
    × (internal_release true 2 40 released.0 ≡ ok released)
internal_release_again_example = internal_release_again true 2 30 40 db1 released release_done

abbrev drawn : Fresh
drawn = record { plaintext = "new"; prefix = "polar_wg_" }

abbrev row : Token
row = record (token 3 "#new" Role.device) {
  label = "ci";
  expires_at = some 3600000000100;
  created_at = 100;
  created_by_user_id = "internal:cloud";
}

abbrev minted_row : Db × Token × Hub
minted_row = (
  record db0 { tokens = token 1 "#hubtoken" Role.hub ∷ secret ∷ row ∷ []; next_token = 4 },
  row,
  home,
)

mint_done : internal_mint world true "home" " ci" 3600 drawn 100 db0 ≡ ok minted_row
unfolding internal_mint get_hub_by_slug configured create_token_for_device get_hub_by_id
    insert_token time_add token_ttl duration trim_space trim_right trim_left is_space
mint_done = refl

internal_mint-expiry_example :
    (e : ℕ) × (minted_row.1.expires_at ≡ some e)
    × (100 < e)
    × (e ≤ 100 + max_ttl)
    × (is_past minted_row.1.expires_at 100 ≡ false)
internal_mint-expiry_example =
    internal_mint-expiry world true "home" " ci" 3600 drawn 100 db0 minted_row (omega arith)
      mint_done

abbrev entry : String → String → String → DnsEntry
entry name ip id = record { hostname = name; wg_ip = ip; device_id = id }

abbrev zone : Zone
zone = record {
  hub_slug = "home";
  suffix = "home.wg";
  entries =
      entry "gw" "100.64.0.1" "dev_1"
      ∷ entry "laptop" "100.64.0.2" "dev_2"
      ∷ entry "laptop-2" "100.64.0.2" "dev_2"
      ∷ [];
  rev = (20, 3);
  refresh_sec = 300;
}

served : dns_zone db1 laptop_row "" ≡ ok zone
unfolding dns_zone spokes_rev get_hub_by_id list_devices_in_hub dns_entries unique_label host_label
    sanitize_hostname squash trim prefix to_lower lower_char itoa itoa_fuel trim_space trim_right
    trim_left is_space
served = refl

dns_zone-entries_example :
    (h : Hub) × (get_hub_by_id db1 1 ≡ some h)
    × ("home" ≡ h.slug)
    × All (λ (e : DnsEntry). is_label e.hostname ≡ true) zone.entries
    × (map (λ (e : DnsEntry). e.wg_ip) zone.entries
        ≡ map (λ (x : Device). x.device_ip) (list_devices_in_hub db1 h.id 0 ++ laptop_row ∷ []))
dns_zone-entries_example = dns_zone-entries db1 laptop_row "" zone served

-- Two bytes as a device id, and the prefix of a token's text.
two_bytes : new_device_id (0xde ∷ 0x0a ∷ []) ≡ "dev_de0a"
unfolding new_device_id hex_text
two_bytes = refl

token_prefix :
    new_token_plaintext (1 ∷ 2 ∷ 3 ∷ 4 ∷ 0xff ∷ []) ≡ ("polar_wg_01020304ff", "polar_wg_01020304")
unfolding new_token_plaintext hex_text prefix
token_prefix = refl
