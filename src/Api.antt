-- ===== src/Api.antt =====
-- The endpoints of a device, after their request is read: `extractDeviceBearer`, `handleWGRegister`,
-- `handleWGHeartbeat`, `handleWGLeave`, `handleWGTokenRefresh` and `handleWGPeers` of
-- internal/wg/handlers.go, and `extractPublicIP` of internal/wg/alloc.go.
pub mod Leave
use polar_wg.Alloc.{allocate_wg_device, Attempts}
use polar_wg.Alloc.Input.{Allocated, RegisterInput, Call}
use polar_wg.Store.Tokens.{is_past}
use polar_wg.Store.Hubs.{get_hub_by_id, clear_hub_bind}
use polar_wg.Store.Devices.{
  get_device_by_token_hash, insert_heartbeat, update_device_token_hash, mark_device_removed,
}
use Prim.Native.Char.{code}
use polar_wg.Routing.Peers.{build_peer_list, PeerList, Resolver}
use polar_wg.Store.Rows.{Device, Db, Hub}
use polar_wg.Net.{LanAddr, World}
use polar_wg.Errors.{
  site_slots_exhausted, site_exhausted, hub_not_configured, hub_already_bound, pubkey_taken,
  token_already_bound, unauthorized, no_rows, token_no_hub, require, or_fail, token_revoked, ok,
  token_expired, Result, token_invalid, Error, ◌>>=◌, ◌>>◌,
}
use polar_wg.Base.{
  All, false, ◌&&◌, Bool, leb, str_eq, ◌+◌, cut, ◌==◌, is_empty, not, is_some_of, trim_space, some,
  none, Option, String, ℕ, List, if◌then◌else◌,
}

-- strings.EqualFold, on letters of ASCII.
abbrev lower : ℕ → ℕ
lower c = if leb 65 c && leb c 90 then c + 32 else c

unfoldable pub equal_fold : String → String → Bool
equal_fold String.[] t = is_empty t
equal_fold (String.◌∷◌ c s) String.[] = false
equal_fold (String.◌∷◌ c s) (String.◌∷◌ d t) = lower (code c) == lower (code d) && equal_fold s t

abbrev bearer_of : Option (String × String) → String
bearer_of none = ""
bearer_of (some (scheme, rest)) = if equal_fold scheme "Bearer" then trim_space rest else ""

-- extractBearerToken, of the text of the header.
unfoldable pub bearer_token : String → String
bearer_token header = bearer_of (cut b' ' header)

-- The device of a bearer token, which must be the one that the request names. The token's text has
-- been taken from its header.
unfoldable pub authenticate : World → String → String → ℕ → Db → Result Device
authenticate w raw claimed now db = do
  require (not (is_empty raw)) unauthorized
  require (not (is_empty (trim_space claimed))) unauthorized
  d ← or_fail (get_device_by_token_hash db (w.hash raw)) unauthorized
  require (str_eq d.device_id (trim_space claimed)) unauthorized
  require (not (is_past d.token_expires_at now)) unauthorized
  ok d

unfoldable pub clear_if_bound : Option Hub → ℕ → ℕ → Db → Db
clear_if_bound none device now db = db
clear_if_bound (some h) device now db =
    if is_some_of h.bound_device_id device then clear_hub_bind h.id now db else db

-- handleWGLeave
unfoldable pub leave : World → String → String → ℕ → Db → Result Db
leave w raw claimed now db = do
  d ← authenticate w raw claimed now db
  db1 ← mark_device_removed d.id now db
  ok (clear_if_bound (get_hub_by_id db1 d.hub_id) d.id now db1)

-- 90 * 24 * time.Hour
abbrev pub ninety_days : ℕ
ninety_days = 7776000000000000

abbrev pub extended : Option ℕ → ℕ → Option ℕ
extended none now = none
extended (some t) now = some (now + ninety_days)

-- handleWGTokenRefresh, with the new token's text as an argument: an expiry is moved, never added.
unfoldable pub token_refresh : World → String → String → String → ℕ → Db → Result (Db × Option ℕ)
token_refresh w raw claimed fresh now db = do
  d ← authenticate w raw claimed now db
  let expires = extended d.token_expires_at now
  ok (update_device_token_hash d.id (w.hash fresh) expires db, expires)

pub record Beat : Type 0 where
  pub lan_addrs : List LanAddr
  pub wg_endpoint : String
  pub stats : Option (Option ℕ × Option ℕ × Option ℕ)

abbrev stats_or_none : Option (Option ℕ × Option ℕ × Option ℕ) → Option ℕ × Option ℕ × Option ℕ
stats_or_none none = (none, none, none)
stats_or_none (some s) = s

-- handleWGHeartbeat
unfoldable pub heartbeat : World → String → String → Beat → ℕ → Db → Result Db
heartbeat w raw claimed b now db = do
  d ← authenticate w raw claimed now db
  let s = stats_or_none b.stats
  ok (
      insert_heartbeat
        (record {
          device_id = d.id;
          rx_bytes = s.0;
          tx_bytes = s.1;
          last_handshake_sec = s.2;
          wg_endpoint = trim_space b.wg_endpoint;
          lan_addrs = b.lan_addrs;
          received_at = now;
        })
        now db)

-- handleWGPeers
unfoldable pub peer_list : World → Resolver → String → String → ℕ → Db → Result PeerList
peer_list w r raw claimed now db = do
  d ← authenticate w raw claimed now db
  h ← or_fail (get_hub_by_id db d.hub_id) no_rows
  ok (build_peer_list w r db d h)

-- v[:strings.LastIndex(v, ":")], where there is one that is not the first character.
unfoldable pub before_last : ℕ → String → Option String
before_last k String.[] = none
before_last k (String.◌∷◌ c s) = elim (before_last k s) [
  | some a ↦ some (String.◌∷◌ c a)
  | none ↦ if code c == k then some String.[] else none
]

abbrev without_port : String → Option String → String
without_port v none = v
without_port v (some a) = if is_empty a then v else a

abbrev first_of : String → Option (String × String) → String
first_of v none = v
first_of v (some (a, b)) = a

unfoldable pub extract_public_ip : String → String → String → String
extract_public_ip xff real_ip remote =
    let v = trim_space xff in
    let r = trim_space real_ip in
    let a = trim_space remote in
    if not (is_empty v)
    then trim_space (first_of v (cut b',' v))
    else (if not (is_empty r) then r else without_port a (before_last b':' a))

-- handleWGRegister, where it succeeds: the caller's address is read off the headers, and the answer
-- shows the token's expiry in place of the device's.
unfoldable pub register :
    World
    → Resolver
    → Call
    → Attempts
    → RegisterInput
    → String
    → String
    → String
    → Result (Db × Allocated × PeerList)
register w r c t i xff real_ip remote = do
  at ← allocate_wg_device w c t (record i { public_ip = extract_public_ip xff real_ip remote })
  ok (
    at.0,
    at.1,
    record (build_peer_list w r at.0 at.1.device at.1.hub) {
      token_expires = at.1.token_expires_at;
    },
  )

-- The answers of handleWGRegister to the errors, and the results that it counts.
pub data Status : Type 0 where
  unauthorized_401 conflict_409 failed_dependency_424 insufficient_storage_507 : Status
  internal_500 : Status

unfoldable pub register_status : Error → Status × String
register_status token_invalid = (unauthorized_401, "invalid_token")
register_status token_expired = (unauthorized_401, "invalid_token")
register_status token_revoked = (unauthorized_401, "invalid_token")
register_status token_no_hub = (unauthorized_401, "invalid_token")
register_status token_already_bound = (conflict_409, "token_already_bound")
register_status pubkey_taken = (conflict_409, "pubkey_already_registered")
register_status hub_already_bound = (conflict_409, "hub_already_bound")
register_status hub_not_configured = (failed_dependency_424, "hub_not_configured")
register_status site_exhausted = (insufficient_storage_507, "site_exhausted")
register_status site_slots_exhausted = (insufficient_storage_507, "site_exhausted")
register_status _ = (internal_500, "error")
