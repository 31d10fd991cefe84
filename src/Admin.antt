-- ===== src/Admin.antt =====
-- The operator's changes, after their request is read: `handleAdminWGHubUpdate`,
-- `handleAdminWGHubDelete`, `handleAdminWGHubResetBind`, `handleAdminWGHubLinkCreate`,
-- `handleAdminWGHubLinkDelete`, `handleAdminWGTokenRevoke`,
-- `handleAdminWGTokenCreate`, `handleAdminWGDeviceUpdate` and `handleAdminWGDeviceRemove` of
-- internal/wg/handlers.go. A path's id that is no positive number is refused before.
pub mod Egress
pub mod Links
use polar_wg.Routing.{subnet_routes}
use polar_wg.Api.{clear_if_bound}
use polar_wg.Store.Links.{create_hub_link}
use polar_wg.Store.Devices.{update_device_egress_hub, mark_device_removed, get_device_by_id}
use polar_wg.Routing.Validate.{
  validate_policy, validate_advertised_routes, validate_mesh_cidr_disjoint, Parsers,
}
use polar_wg.Store.Hubs.{update_hub, list_hubs, get_hub_by_id, delete_hub, clear_hub_bind}
use polar_wg.Mint.{create_token_for_device, create_token_for_hub, MintInput, HubInput}
use polar_wg.Net.{World}
use polar_wg.Store.Rows.{is_live, Token, HubLink, Policy, Hub, Device, Db}
use polar_wg.Errors.{
  no_subnet_routes, role_invalid, egress_hub_not_found, no_advertised_routes, err, no_rows,
  hub_id_invalid, ok, require, or_fail, Result, ◌>>=◌, ◌>>◌,
}
use polar_wg.Store.Links.{delete_hub_link}
use polar_wg.Store.Tokens.{revoke_token}
use polar_wg.Base.{
  duration, time_add, ◌||◌, ◌==◌, is_nil, ◌*◌, str_eq, ◌&&◌, not, none, ◌+◌, some, ltb, List,
  is_empty, Option, String, ℕ, if◌then◌else◌,
}

-- The body of a hub update; a number that is not positive and an absent list or policy change
-- nothing.
pub record HubChange : Type 0 where
  pub label : String
  pub endpoint : String
  pub wg_ip : String
  pub mesh_cidr : String
  pub keepalive_sec : ℕ
  pub refresh_sec : ℕ
  pub advertised_routes : Option (List String)
  pub policy : Option Policy

abbrev pub given : String → String → String
given s old = if is_empty s then old else s

abbrev positive : ℕ → ℕ → ℕ
positive n old = if ltb 0 n then n else old

abbrev present {ℓ} : {A : Type ℓ} → Option A → A → A
present none old = old
present (some a) old = a

abbrev pub changed : HubChange → Hub → Hub
changed r h = record h {
  label = r.label;
  endpoint = r.endpoint;
  wg_ip = given r.wg_ip h.wg_ip;
  mesh_cidr = given r.mesh_cidr h.mesh_cidr;
  keepalive_sec = positive r.keepalive_sec h.keepalive_sec;
  refresh_sec = positive r.refresh_sec h.refresh_sec;
  advertised_routes = present r.advertised_routes h.advertised_routes;
  policy = elim r.policy [ none ↦ h.policy | some p ↦ some p ];
}

-- handleAdminWGHubUpdate: routes are checked against the hubs as they are before the change.
unfoldable pub hub_update : World → Parsers → ℕ → HubChange → ℕ → Db → Result (Db × Option Hub)
hub_update w p id r now db = do
  h ← or_fail (get_hub_by_id db id) no_rows
  if is_empty r.mesh_cidr
      then ok tt
      else validate_mesh_cidr_disjoint w r.mesh_cidr (list_hubs db) h.id
  elim r.advertised_routes [
    | none ↦ ok tt
    | some routes ↦ validate_advertised_routes w routes (list_hubs db)
  ]
  validate_policy p r.policy
  ok (update_hub (changed r h) now db)

-- handleAdminWGHubDelete
abbrev pub hub_delete : ℕ → Db → Result Db
hub_delete id db = delete_hub id db

-- handleAdminWGHubResetBind
abbrev pub hub_reset_bind : ℕ → ℕ → Db → Db
hub_reset_bind id now db = clear_hub_bind id now db

-- handleAdminWGHubLinkDelete and handleAdminWGTokenRevoke
abbrev pub link_delete : ℕ → Db → Result Db
link_delete id db = delete_hub_link id db

abbrev pub token_revoke : ℕ → ℕ → Db → Result Db
token_revoke id now db = revoke_token id now db

-- handleAdminWGHubLinkCreate
unfoldable pub link_create : ℕ → ℕ → ℕ → Db → Result (Db × HubLink)
link_create a b now db = do require (ltb 0 a && ltb 0 b) hub_id_invalid; create_hub_link a b now db

abbrev egress_allowed : Device → Hub → Result (Unit {0})
egress_allowed d h = do
  require (not (is_nil h.advertised_routes)) no_advertised_routes
  require (h.id == d.hub_id || not (is_nil (subnet_routes h.advertised_routes))) no_subnet_routes

-- handleAdminWGDeviceUpdate
unfoldable pub device_update : ℕ → Option ℕ → Db → Result Db
device_update id egress db = do
  d ← or_fail (get_device_by_id db id) no_rows
  require (is_live d) no_rows
  elim egress [
    | none ↦ ok tt
    | some e ↦ or_fail (get_hub_by_id db e) egress_hub_not_found >>= egress_allowed d
  ]
  update_device_egress_hub id egress db

-- handleAdminWGDeviceRemove
unfoldable pub device_remove : ℕ → ℕ → Db → Result Db
device_remove id now db = do
  d ← or_fail (get_device_by_id db id) no_rows
  db1 ← mark_device_removed id now db
  ok (clear_if_bound (get_hub_by_id db1 d.hub_id) d.id now db1)

-- The body of a token's creation; `ttl_days` days are added to the present time,
-- in 64 bits.
pub record TokenRequest : Type 0 where
  pub role : String
  pub ttl_days : ℕ
  pub hub_id : ℕ
  pub hub : HubInput

abbrev pub day : ℕ
day = 86400000000000

abbrev pub expiry : TokenRequest → ℕ → Option ℕ
expiry r now = if ltb 0 r.ttl_days then some (time_add now (duration r.ttl_days day)) else none

abbrev pub minted : Db → Result (Db × Token) → Db × Result Token
minted db (ok (db1, t)) = (db1, ok t)
minted db (err e) = (db, err e)

abbrev pub minted_hub : Db × Result (Token × Hub) → Db × Result Token
minted_hub (db, ok (t, h)) = (db, ok t)
minted_hub (db, err e) = (db, err e)

-- handleAdminWGTokenCreate
unfoldable pub token_create : World → TokenRequest → MintInput → Db → Db × Result Token
token_create w r m db =
    let m' = record m { expires_at = expiry r m.now } in
    if str_eq r.role "hub"
    then minted_hub (create_token_for_hub w m' r.hub db)
    else (if str_eq r.role "device"
        then (if ltb 0 r.hub_id
            then minted db (create_token_for_device w m' r.hub_id db)
            else (db, err hub_id_invalid))
        else (db, err role_invalid))
