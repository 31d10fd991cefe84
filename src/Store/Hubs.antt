-- ===== src/Store/Hubs.antt =====
-- The statements on wg_hubs: getWGHubByID and its variants, createWGHub, updateWGHubBindTx,
-- clearWGHubBind, updateWGHub, deleteWGHub, suggestFreeMeshCIDR.
use polar_wg.Base.{
  ℕ, zero, suc, ◌+◌, ◌/◌, ◌%◌, String, not, ◌&&◌, Option, none, some, List, [], ◌∷◌, ◌++◌, ◌==◌,
  if◌then◌else◌, str_eq, is_empty, append, itoa, trim_space, find, any, update_where, select, map,
}
use polar_wg.Errors.{
  Result, ok, err, ◌>>=◌, ◌>>◌, require, hub_slug_required, violates, hubs_slug,
  hub_has_live_devices, no_rows, no_free_mesh,
}
use polar_wg.Net.{World, hub_wg_ip_from_cidr}
use polar_wg.Store.Rows.{Hub, Token, Device, Db, is_live}

unfoldable pub get_hub_by_id : Db → ℕ → Option Hub
get_hub_by_id db id = find (λ h. h.id == id) db.hubs

unfoldable pub get_hub_by_slug : Db → String → Option Hub
get_hub_by_slug db slug = find (λ h. str_eq h.slug slug) db.hubs

-- ORDER BY id
unfoldable pub list_hubs : Db → List Hub
list_hubs db = db.hubs

-- The INSERT: the columns that it does not name take the schema's defaults.
abbrev new_hub : Db → String → String → String → String → String → ℕ → Hub
new_hub db slug label endpoint mesh_cidr wg_ip now = record {
  id = db.next_hub;
  slug = slug;
  label = trim_space label;
  pubkey = "";
  endpoint = trim_space endpoint;
  wg_ip = wg_ip;
  mesh_cidr = mesh_cidr;
  keepalive_sec = 25;
  refresh_sec = 300;
  bound_device_id = none;
  advertised_routes = [];
  policy = none;
  created_at = now;
  updated_at = now;
}

abbrev pub default_mesh : String
default_mesh = "100.64.0.0/24"

-- createWGHub. `now` is the database's clock.
unfoldable pub create_hub : World → String → String → String → String → ℕ → Db → Result (Db × Hub)
create_hub w slug label endpoint mesh_cidr now db = do
  let slug' = trim_space slug
  require (not (is_empty slug')) hub_slug_required
  let mesh = if is_empty mesh_cidr then default_mesh else mesh_cidr
  wg_ip ← hub_wg_ip_from_cidr w mesh
  require (not (any (λ (h : Hub). str_eq h.slug slug') db.hubs)) (violates hubs_slug)
  let h = new_hub db slug' label endpoint mesh wg_ip now
  ok (record db { hubs = db.hubs ++ h ∷ []; next_hub = suc db.next_hub }, h)

abbrev pub bind : String → String → ℕ → ℕ → Hub → Hub
bind pubkey observed device_id now h = record h {
  pubkey = trim_space pubkey;
  endpoint = if is_empty h.endpoint then observed else h.endpoint;
  bound_device_id = some device_id;
  updated_at = now;
}

-- updateWGHubBindTx
unfoldable pub update_hub_bind : ℕ → String → String → ℕ → ℕ → Db → Db
update_hub_bind hub_id pubkey observed device_id now db = record db {
  hubs = update_where (λ h. h.id == hub_id) (bind pubkey observed device_id now) db.hubs;
}

abbrev pub unbind : ℕ → Hub → Hub
unbind now h = record h { pubkey = ""; bound_device_id = none; updated_at = now }

-- clearWGHubBind
unfoldable pub clear_hub_bind : ℕ → ℕ → Db → Db
clear_hub_bind hub_id now db = record db {
  hubs = update_where (λ h. h.id == hub_id) (unbind now) db.hubs;
}

-- The columns that updateWGHub writes, with its defaults for empty values.
abbrev pub overwrite : Hub → ℕ → Hub → Hub
overwrite h now old = record old {
  label = trim_space h.label;
  endpoint = trim_space h.endpoint;
  wg_ip = if is_empty h.wg_ip then "100.64.0.1" else h.wg_ip;
  mesh_cidr = if is_empty h.mesh_cidr then default_mesh else h.mesh_cidr;
  keepalive_sec = if h.keepalive_sec == 0 then 25 else h.keepalive_sec;
  refresh_sec = if h.refresh_sec == 0 then 300 else h.refresh_sec;
  advertised_routes = h.advertised_routes;
  policy = h.policy;
  updated_at = now;
}

-- updateWGHub
unfoldable pub update_hub : Hub → ℕ → Db → Db × Option Hub
update_hub h now db =
    let db' = record db {
      hubs = update_where (λ (r : Hub). r.id == h.id) (overwrite h now) db.hubs;
    } in
    (db', get_hub_by_id db' h.id)

abbrev drop_ref : ℕ → Option ℕ → Option ℕ
drop_ref id none = none
drop_ref id (some r) = if r == id then none else some r

-- ON DELETE CASCADE and ON DELETE SET NULL of the foreign keys to wg_hubs, and of those to the rows
-- that go with the hub.
unfoldable pub drop_hub : ℕ → Db → Db
drop_hub id db = record db {
  hubs = select (λ h. not (h.id == id)) db.hubs;
  links = select (λ l. not (l.hub_a_id == id) && not (l.hub_b_id == id)) db.links;
  sites = select (λ s. not (s.hub_id == id)) db.sites;
  devices =
      map (λ (d : Device). record d { egress_hub_id = drop_ref id d.egress_hub_id })
        (select (λ d. not (d.hub_id == id)) db.devices);
  heartbeats =
      select (λ b. any (λ (d : Device). d.id == b.device_id && not (d.hub_id == id)) db.devices)
        db.heartbeats;
  tokens = map (λ (t : Token). record t { hub_id = drop_ref id t.hub_id }) db.tokens;
}

-- deleteWGHub
unfoldable pub delete_hub : ℕ → Db → Result Db
delete_hub id db = do
  require (not (any (λ (d : Device). d.hub_id == id && is_live d) db.devices)) hub_has_live_devices
  require (any (λ (h : Hub). h.id == id) db.hubs) no_rows
  ok (drop_hub id db)

-- fmt.Sprintf("100.%d.%d.0/24", x, y), for the n-th /24 of 100.64.0.0/10.
unfoldable pub mesh_candidate : ℕ → String
mesh_candidate n =
    append "100." (append (itoa (64 + n / 256)) (append "." (append (itoa (n % 256)) ".0/24")))

-- The two loops over x in 64..127 and y in 0..255, from the n-th candidate on.
unfoldable pub first_candidate : ℕ → ℕ → List String → Result String
first_candidate zero n used = err no_free_mesh
first_candidate (suc rounds) n used =
    let rest = first_candidate rounds (n + 1) used in
    if any (str_eq (mesh_candidate n)) used then rest else ok (mesh_candidate n)

unfoldable pub suggest_free_mesh_cidr : Db → Result String
suggest_free_mesh_cidr db =
    first_candidate 16384 0 (map (λ (h : Hub). trim_space h.mesh_cidr) db.hubs)
