-- ===== src/Store/Devices.antt =====
-- The statements on wg_devices and wg_heartbeats: the getters and listings, the INSERT with the
-- schema's unique indexes, markWGDeviceRemoved, updateWGDeviceEgressHub, updateWGDeviceTokenHash,
-- hubIDsForHost, linkWGDeviceHostByDeviceIP, linkWGDeviceHostByPubkey, insertWGHeartbeat and
-- validatePubkey.
use polar_wg.Base.{
  ℕ, suc, String, Bool, not, ◌&&◌, ◌||◌, Option, some, List, [], ◌∷◌, ◌++◌, leb, ◌==◌,
  if◌then◌else◌, str_eq, is_empty, trim_space, find, any, update_where, select, map, order_by,
  length, byte_len,
}
use polar_wg.Errors.{
  Result, ok, ◌>>◌, require, no_rows, violates, devices_device_id, devices_device_ip,
  devices_pubkey, devices_site_dindex, devices_dindex_check, pubkey_required, pubkey_too_long,
}
use polar_wg.Store.Rows.{Device, Heartbeat, Db, is_live, coalesce}

unfoldable pub get_device_by_id : Db → ℕ → Option Device
get_device_by_id db id = find (λ d. d.id == id) db.devices

unfoldable pub get_device_by_token_hash : Db → String → Option Device
get_device_by_token_hash db hash = find (λ d. str_eq d.token_hash hash && is_live d) db.devices

unfoldable pub lookup_device_by_pubkey : Db → String → Option Device
lookup_device_by_pubkey db pubkey = find (λ d. str_eq d.pubkey pubkey && is_live d) db.devices

-- listWGDevicesInHub
unfoldable pub list_devices_in_hub : Db → ℕ → ℕ → List Device
list_devices_in_hub db hub_id exclude =
    order_by (λ d. d.d_index)
      (select (λ d. d.hub_id == hub_id && is_live d && not (d.id == exclude)) db.devices)

-- listWGDevicesInSite
unfoldable pub list_devices_in_site : Db → ℕ → ℕ → List Device
list_devices_in_site db site_id exclude =
    order_by (λ d. d.d_index)
      (select (λ d. d.site_id == site_id && is_live d && not (d.id == exclude)) db.devices)

abbrev pub live_where : (Device → Bool) → Db → Bool
live_where p db = any (λ (d : Device). is_live d && p d) db.devices

-- INSERT INTO wg_devices under the unique indexes and the check of the schema. The id of the row is
-- set here.
unfoldable pub insert_device : Device → Db → Result (Db × Device)
insert_device d db = do
  require (leb 1 d.d_index && leb d.d_index 254) (violates devices_dindex_check)
  require (not (any (λ (r : Device). str_eq r.device_id d.device_id) db.devices))
      (violates devices_device_id)
  require (not (live_where (λ r. str_eq r.device_ip d.device_ip) db)) (violates devices_device_ip)
  require (not (live_where (λ r. str_eq r.pubkey d.pubkey) db)) (violates devices_pubkey)
  require (not (live_where (λ r. r.site_id == d.site_id && r.d_index == d.d_index) db))
      (violates devices_site_dindex)
  let row = record d { id = db.next_device }
  ok (record db { devices = db.devices ++ row ∷ []; next_device = suc db.next_device }, row)

abbrev pub remove_at : ℕ → Device → Device
remove_at now d = record d { removed_at = coalesce d.removed_at now }

-- markWGDeviceRemoved
unfoldable pub mark_device_removed : ℕ → ℕ → Db → Result Db
mark_device_removed id now db = do
  require (any (λ (d : Device). d.id == id) db.devices) no_rows
  ok (record db { devices = update_where (λ d. d.id == id) (remove_at now) db.devices })

-- updateWGDeviceEgressHub
unfoldable pub update_device_egress_hub : ℕ → Option ℕ → Db → Result Db
update_device_egress_hub id egress db = do
  require (any (λ (d : Device). d.id == id && is_live d) db.devices) no_rows
  ok (record db {
    devices =
        update_where (λ d. d.id == id && is_live d) (λ d. record d { egress_hub_id = egress })
          db.devices;
  })

-- updateWGDeviceTokenHash
unfoldable pub update_device_token_hash : ℕ → String → Option ℕ → Db → Db
update_device_token_hash id hash expires db = record db {
  devices =
      update_where (λ d. d.id == id && is_live d)
        (λ d. record d { token_hash = hash; token_expires_at = expires }) db.devices;
}

-- hubIDsForHost: the set as the list of its members.
unfoldable pub hub_ids_for_host : Db → String → String → List ℕ
hub_ids_for_host db host_id hostname =
    let hid = trim_space host_id in
    let name = trim_space hostname in
    if is_empty hid && is_empty name
    then []
    else map (λ (d : Device). d.hub_id)
        (select
          (λ d.
            is_live d
            && ((not (is_empty hid) && str_eq d.host_id hid)
                || (not (is_empty name) && str_eq d.hostname name)))
          db.devices)

abbrev pub link_host : (Device → Bool) → String → Db → Db × ℕ
link_host p host_id db =
    let hit : Device → Bool = λ d. p d && is_live d && not (str_eq d.host_id host_id) in
    (
      record db { devices = update_where hit (λ d. record d { host_id = host_id }) db.devices },
      length (select hit db.devices),
    )

-- linkWGDeviceHostByPubkey, linkWGDeviceHostByDeviceIP: the rows changed are counted.
unfoldable pub link_device_host_by_pubkey : String → String → Db → Db × ℕ
link_device_host_by_pubkey pubkey host_id db =
    link_host (λ d. str_eq d.pubkey (trim_space pubkey)) (trim_space host_id) db

unfoldable pub link_device_host_by_device_ip : String → String → Db → Db × ℕ
link_device_host_by_device_ip ip host_id db =
    link_host (λ d. str_eq d.device_ip (trim_space ip)) (trim_space host_id) db

abbrev pub heard : Heartbeat → ℕ → Device → Device
heard b now d = record d {
  last_seen_at = some now;
  wg_endpoint = if is_empty b.wg_endpoint then d.wg_endpoint else b.wg_endpoint;
  lan_addrs = elim b.lan_addrs [ [] ↦ d.lan_addrs | a ∷ addrs ↦ a ∷ addrs ];
}

-- insertWGHeartbeat
unfoldable pub insert_heartbeat : Heartbeat → ℕ → Db → Db
insert_heartbeat b now db = record db {
  heartbeats = db.heartbeats ++ record b { received_at = now } ∷ [];
  devices = update_where (λ d. d.id == b.device_id) (heard b now) db.devices;
}

unfoldable pub validate_pubkey : String → Result (Unit {0})
validate_pubkey p = do
  let s = trim_space p
  require (not (is_empty s)) pubkey_required
  require (leb (byte_len s) 128) pubkey_too_long
