-- ===== src/Status/Rows.antt =====
-- The page of hub statuses: `rosterStatusForHub` and `handleAdminWGHubStatus` of
-- internal/wg/hub_status_handlers.go. The entry of a live sample shares its peers with the cache, so
-- the host ids that are written into them stay there: the handler gives the cache back.
use polar_wg.Store.Hubs.{list_hubs}
use polar_wg.Status.{Entries, Sample, lookup}
use polar_wg.Store.Devices.{list_devices_in_hub}
use polar_wg.Store.Rows.{Db, Hub, Device}
use polar_wg.Base.{
  ◌||◌, not, str_eq, [], true, select, is_empty, ◌∷◌, String, Option, List, ℕ, if◌then◌else◌, none,
  some,
}
use polar_wg.Status.Entry.{
  count_items, enrich, get_field, build_entry, Payload, Entry, set_field, end, field, nil, cons,
  text, object, array, Json, Items, Fields,
}

-- wgHubStatusRow
pub record StatusRow (N : Type 0) : Type 0 where
  pub id : ℕ
  pub slug : String
  pub label : String
  pub pubkey : String
  pub endpoint : String
  pub wg_ip : String
  pub mesh_cidr : String
  pub advertised_routes : List String
  pub status : Option (Entry N)

module _ {N : Type 0} where
  abbrev field_unless_empty : String → String → Fields N → Fields N
  field_unless_empty key value fs = if is_empty value then fs else field key (text value) fs

  abbrev pub roster_peer : Device → Json N
  roster_peer d = object (
      field "public_key" (text d.pubkey)
        (field_unless_empty "wg_ip" d.device_ip (field_unless_empty "endpoint" d.wg_endpoint end)))

  abbrev roster_items : List Device → Items N
  roster_items [] = nil
  roster_items (d ∷ devices) = cons (roster_peer d) (roster_items devices)

  abbrev roster_entry : Items N → Option (Entry N)
  roster_entry nil = none
  roster_entry (cons v vs) = some (record {
    host_id = "";
    iface = "wgc0";
    recorded_at = none;
    stale = true;
    peer_count = count_items (cons v vs);
    listen_port = 0;
    peers = cons v vs;
    extra = field "source" (text "roster") end;
  })

  -- rosterStatusForHub
  unfoldable pub roster_status : Db → Hub → Option (Entry N)
  unfolding list_devices_in_hub
  roster_status db h = roster_entry (
      roster_items (
        select (λ (d : Device). not (is_empty d.pubkey || str_eq d.pubkey h.pubkey))
          (list_devices_in_hub db h.id 0)))

  abbrev pub with_hosts : List Device → Option (Entry N) → Option (Entry N)
  with_hosts devices none = none
  with_hosts devices (some e) = some (record e { peers = enrich devices e.peers })

  abbrev pub shared_peers : List Device → Option (Json N) → Fields N → Fields N
  shared_peers devices (some (array vs)) fs = set_field "peers" (array (enrich devices vs)) fs
  shared_peers devices other fs = fs

  -- The sample whose peers the entry has written into.
  abbrev pub stamped_payload : List Device → Payload N → Payload N
  stamped_payload devices none = none
  stamped_payload devices (some fs) = some (shared_peers devices (get_field "peers" fs) fs)

  abbrev pub stamped_sample : List Device → Sample (Payload N) → Sample (Payload N)
  stamped_sample devices s = record s { payload = stamped_payload devices s.payload }

  abbrev pub put_sample : String → Sample (Payload N) → Entries (Payload N) → Entries (Payload N)
  put_sample pubkey s entries key = if str_eq pubkey key then some s else entries key

module _ {N : Type 0} (int_of : N → ℕ) (ttl : ℕ) where
  -- The status of one hub, and the cache behind it.
  unfoldable pub hub_status :
      ℕ → Db → Hub → Entries (Payload N) → Option (Entry N) × Entries (Payload N)
  unfolding lookup build_entry enrich roster_status get_field set_field
  hub_status now db h entries = elim (lookup ttl now h.pubkey entries) [
    | some (s, stale) ↦ (
      with_hosts db.devices (some (build_entry int_of s stale)),
      put_sample h.pubkey (stamped_sample db.devices s) entries,
    )
    | none ↦ (with_hosts db.devices (roster_status db h), entries)
  ]

  abbrev status_row : Hub → Option (Entry N) → StatusRow N
  status_row h status = record {
    id = h.id;
    slug = h.slug;
    label = h.label;
    pubkey = h.pubkey;
    endpoint = h.endpoint;
    wg_ip = h.wg_ip;
    mesh_cidr = h.mesh_cidr;
    advertised_routes = h.advertised_routes;
    status = status;
  }

  unfoldable pub status_rows :
      ℕ → Db → List Hub → Entries (Payload N) → List (StatusRow N) × Entries (Payload N)
  unfolding hub_status
  status_rows now db [] entries = ([], entries)
  status_rows now db (h ∷ hubs) entries =
      let here = hub_status now db h entries in
      let rest = status_rows now db hubs here.1 in (status_row h here.0 ∷ rest.0, rest.1)

  -- handleAdminWGHubStatus; the status cache exists from the start of the plugin on.
  unfoldable pub hub_statuses :
      ℕ → Db → Entries (Payload N) → List (StatusRow N) × Entries (Payload N)
  unfolding status_rows list_hubs
  hub_statuses now db entries = status_rows now db (list_hubs db) entries
