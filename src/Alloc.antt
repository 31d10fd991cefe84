-- ===== src/Alloc.antt =====
-- The allocator behind POST /v1/register: `allocateWGDevice`, `doAllocate`, `refreshExistingDevice`,
-- `bindHubDevice` and `allocateDevice` of internal/wg/alloc.go. A call reads a database and returns
-- the next one with its result, or an error: the transaction is rolled back then, and there is no
-- next database.
pub mod Input
pub mod Index
pub mod Sites
pub mod Free
pub mod Addressing
pub mod Siting
pub mod Grown
pub mod Joining
pub mod Room
pub mod Single
pub mod Again
pub mod Rounds
use polar_wg.Base.{
  ℕ, zero, suc, ◌+◌, ◌<◌, String, Bool, true, false, not, ◌&&◌, ◌||◌, Option, none, some, List, [],
  ◌∷◌, ◌++◌, ltb, leb, ◌==◌, if◌then◌else◌, str_eq, is_empty, is_some, is_some_of, append,
  trim_space, update_where,
}
use polar_wg.Errors.{
  Error, Result, ok, err, ◌>>=◌, ◌>>◌, require, or_fail, token_invalid, token_no_hub, pubkey_taken,
  token_already_bound, hub_already_bound, hub_not_configured, no_rows, could_not_serialize,
}
use polar_wg.Net.{
  World, LanAddr, parse_mesh_cidr, hub_wg_ip_from_cidr, device_ip, host_port, first_lan_ip,
  first_lan_cidr,
}
use polar_wg.Store.Rows.{Hub, Token, Device, Site, Db, Role, hub, device, configured, is_live}
use polar_wg.Store.Hubs.{get_hub_by_id, update_hub_bind}
use polar_wg.Store.Tokens.{lookup_unused_token, consume_token}
use polar_wg.Store.Devices.{
  get_device_by_id, lookup_device_by_pubkey, insert_device, validate_pubkey,
}
use Input.{RegisterInput, Allocated, Call}
use Index.{pick_free_d_index}
use Sites.{get_or_create_site, resolve_or_create_site}

-- The columns that a repeated registration refreshes. COALESCE(NULLIF($8, ''), host_id) keeps the
-- host id where the call brings none.
abbrev pub refresh : RegisterInput → Device → Device
refresh i d = record d {
  hostname = trim_space i.hostname;
  os = trim_space i.os;
  arch = trim_space i.arch;
  agent_ver = trim_space i.agent_ver;
  lan_addrs = i.lan_addrs;
  wg_listen_port = i.wg_listen_port;
  host_id = let s = trim_space i.host_id in if is_empty s then d.host_id else s;
}

-- refreshExistingDevice. Reading the row back cannot miss it; a miss would be `no_rows`.
unfoldable pub refresh_existing_device :
    Device → RegisterInput → Token → Hub → Db → Result (Db × Allocated)
refresh_existing_device existing i tok h db = do
  let db' = record db { devices = update_where (λ d. d.id == existing.id) (refresh i) db.devices }
  refreshed ← or_fail (get_device_by_id db' existing.id) no_rows
  ok (
    db',
    record {
      device = refreshed;
      hub = h;
      role = if is_some_of h.bound_device_id existing.id then hub else device;
      plaintext_token = i.token;
      token_expires_at = tok.expires_at;
    },
  )

-- The columns that both kinds of registration insert alike. The id is set by the insertion.
abbrev pub new_device :
    World → Call → RegisterInput → Token → ℕ → ℕ → ℕ → String → String → Bool → Device
new_device w c i tok hub_id site_id d_index ip endpoint isolated = record {
  id = 0;
  device_id = c.device_id;
  hub_id = hub_id;
  site_id = site_id;
  d_index = d_index;
  device_ip = ip;
  pubkey = trim_space i.pubkey;
  hostname = trim_space i.hostname;
  host_id = trim_space i.host_id;
  os = trim_space i.os;
  arch = trim_space i.arch;
  agent_ver = trim_space i.agent_ver;
  wg_listen_port = i.wg_listen_port;
  lan_addrs = i.lan_addrs;
  wg_endpoint = endpoint;
  token_hash = w.hash i.token;
  token_expires_at = tok.expires_at;
  egress_hub_id = none;
  isolated = isolated;
  created_at = c.now;
  last_seen_at = none;
  removed_at = none;
  site_slug = "";
  hub_slug = "";
}

abbrev ok_or_empty : Result String → String
ok_or_empty (ok s) = s
ok_or_empty (err e) = ""

-- The endpoint and the address of a hub's device.
unfoldable pub hub_device_endpoint : RegisterInput → String
hub_device_endpoint i =
    let ip = trim_space i.public_ip in
    host_port (if is_empty ip then first_lan_ip (first_lan_cidr i.lan_addrs) else ip)
      i.wg_listen_port

unfoldable pub hub_device_ip : World → Hub → String
hub_device_ip w h =
    if is_empty h.wg_ip then ok_or_empty (hub_wg_ip_from_cidr w h.mesh_cidr) else h.wg_ip

-- bindHubDevice
unfoldable pub bind_hub_device :
    World → Call → RegisterInput → Token → Hub → Db → Result (Db × Allocated)
bind_hub_device w c i tok h db = do
  require (not (is_some h.bound_device_id)) hub_already_bound
  (db1, site) ← get_or_create_site h.id (append h.slug ":hub") 0 "hub site" i.public_ip "" c.now db
  let endpoint = hub_device_endpoint i
  (db2, row) ←
      insert_device (new_device w c i tok h.id site.id 1 (hub_device_ip w h) endpoint false) db1
  let db3 = update_hub_bind h.id i.pubkey endpoint row.id c.now db2
  let db4 = consume_token tok.id c.now row.id db3
  dev ← or_fail (get_device_by_id db4 row.id) no_rows
  bound ← or_fail (get_hub_by_id db4 h.id) no_rows
  ok (
    db4,
    record {
      device = record dev { hub_slug = h.slug; site_slug = site.slug };
      hub = bound;
      role = hub;
      plaintext_token = i.token;
      token_expires_at = tok.expires_at;
    },
  )

unfoldable pub observed_endpoint : RegisterInput → String
observed_endpoint i =
    let ip = trim_space i.public_ip in
    if not (is_empty ip) && ltb 0 i.wg_listen_port then host_port ip i.wg_listen_port else ""

-- allocateDevice
unfoldable pub allocate_device :
    World → Call → RegisterInput → Token → Hub → Db → Result (Db × Allocated)
allocate_device w c i tok h db = do
  require (configured h) hub_not_configured
  mesh ← parse_mesh_cidr w h.mesh_cidr
  (db1, site) ← resolve_or_create_site w h.id i c.now db
  d_index ← pick_free_d_index db1 h.id
  (db2, row) ←
      insert_device
        (new_device w c i tok h.id site.id d_index (device_ip mesh d_index) (observed_endpoint i)
          i.isolated)
        db1
  let db3 = consume_token tok.id c.now row.id db2
  dev ← or_fail (get_device_by_id db3 row.id) no_rows
  ok (
    db3,
    record {
      device = record dev { hub_slug = h.slug; site_slug = site.slug };
      hub = h;
      role = device;
      plaintext_token = i.token;
      token_expires_at = tok.expires_at;
    },
  )

abbrev pub by_role :
    World → Call → RegisterInput → Token → Hub → Db → Role → Result (Db × Allocated)
by_role w c i tok h db hub = bind_hub_device w c i tok h db
by_role w c i tok h db device = allocate_device w c i tok h db

-- What follows once the token and its hub are found: the repeated registration of a live device, or
-- a new one.
unfoldable pub claim : World → Call → RegisterInput → Token → Hub → Db → Result (Db × Allocated)
claim w c i tok h db = elim (lookup_device_by_pubkey db (trim_space i.pubkey)) [
  | some existing ↦
      if str_eq existing.token_hash (w.hash i.token) && is_live existing
      then refresh_existing_device existing i tok h db
      else err pubkey_taken
  | none ↦
      if is_some tok.consumed_at then err token_already_bound else by_role w c i tok h db tok.role
]

-- doAllocate
unfoldable pub do_allocate : World → Call → RegisterInput → Db → Result (Db × Allocated)
do_allocate w c i db = do
  found ← lookup_unused_token w i.token c.now db
  tok ← or_fail found token_invalid
  hub_id ← or_fail tok.hub_id token_no_hub
  h ← or_fail (get_hub_by_id db hub_id) token_no_hub
  claim w c i tok h db

-- What the transactions of a call meet: the database that the n-th one reads, and the error with
-- which PostgreSQL ends it, if it does not let it finish.
pub record Attempts : Type 0 where
  pub snapshot : ℕ → Db
  pub fault : ℕ → Option Error

abbrev pub attempt : World → Call → Attempts → RegisterInput → ℕ → Result (Db × Allocated)
attempt w c t i n = elim (t.fault n) [ none ↦ do_allocate w c i (t.snapshot n) | some e ↦ err e ]

-- strings.Contains(err.Error(), "could not serialize")
abbrev pub is_serialization : Error → Bool
is_serialization could_not_serialize = true
is_serialization _ = false

-- The loop over the attempts: an error other than "could not serialize" ends it, and so does the
-- last round, with the last error.
unfoldable pub retry :
    World → Call → Attempts → RegisterInput → ℕ → ℕ → Error → Result (Db × Allocated)
retry w c t i zero n last = err last
retry w c t i (suc rounds) n last = elim (attempt w c t i n) [
  | ok r ↦ ok r
  | err e ↦
      let again = retry w c t i rounds (n + 1) e in if is_serialization e then again else err e
]

unfoldable pub listen_port : ℕ → ℕ
listen_port p = if p == 0 || ltb 65535 p then 51820 else p

-- allocateWGDevice: two attempts at most.
unfoldable pub allocate_wg_device :
    World → Call → Attempts → RegisterInput → Result (Db × Allocated)
allocate_wg_device w c t i = do
  validate_pubkey i.pubkey
  require (not (is_empty (trim_space i.token))) token_invalid
  retry w c t (record i { wg_listen_port = listen_port i.wg_listen_port }) 2 0 token_invalid
