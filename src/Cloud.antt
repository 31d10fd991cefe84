-- ===== src/Cloud.antt =====
-- The endpoints for the programs on the same machine: `handleInternalWGTokenMint`,
-- `handleInternalWGTokenGet` and `handleInternalWGTokenRelease` of internal/wg/internal_cloud.go, and
-- `handleInternalWGDeviceLink` of internal/wg/internal_wg_link.go. Whether a request comes from the
-- loopback address is an argument.
pub mod Release
pub mod Expiry
use polar_wg.Store.Hubs.{get_hub_by_slug, get_hub_by_id}
use polar_wg.Store.Tokens.{get_token_by_id, revoke_token}
use polar_wg.Api.{clear_if_bound}
use polar_wg.Store.Devices.{
  link_device_host_by_pubkey, link_device_host_by_device_ip, get_device_by_id, mark_device_removed,
}
use polar_wg.Mint.{create_token_for_device, MintInput}
use polar_wg.Net.{World}
use polar_wg.Store.Rows.{configured, is_live, Hub, Db, Token, Device}
use polar_wg.Errors.{
  hub_not_configured, hub_not_found, token_not_found, hub_slug_and_label_required, or_fail,
  host_id_required, loopback_only, ok, require, Result, ◌>>=◌, ◌>>◌,
}
use polar_wg.Base.{
  time_add, [], none, ◌||◌, ◌&&◌, ◌+◌, is_empty, is_negative, trim_space, is_some, not, ◌∷◌, some,
  duration, List, ltb, String, Option, ℕ, Bool, if◌then◌else◌,
}

-- internalTokenDefaultTTL and internalTokenMaxTTL
abbrev pub default_ttl : ℕ
default_ttl = 86400000000000

abbrev pub max_ttl : ℕ
max_ttl = 2592000000000000

abbrev pub second : ℕ
second = 1000000000

-- The time to live of a request: negative ones are none, and a product that leaves the 64 bits may be
-- negative.
unfoldable pub token_ttl : ℕ → ℕ
token_ttl sec =
    let ttl = if ltb 0 sec then duration sec second else default_ttl in
    if not (is_negative ttl) && ltb max_ttl ttl then max_ttl else ttl

-- What newWGTokenPlaintext draws.
pub record Fresh : Type 0 where
  pub plaintext : String
  pub prefix : String

abbrev pub cloud_mint : Fresh → String → ℕ → ℕ → MintInput
cloud_mint f label exp now = record {
  label = label;
  user_id = "internal:cloud";
  plaintext = f.plaintext;
  prefix = f.prefix;
  expires_at = some exp;
  now = now;
}

-- handleInternalWGTokenMint
unfoldable pub internal_mint :
    World → Bool → String → String → ℕ → Fresh → ℕ → Db → Result (Db × Token × Hub)
internal_mint w loopback hub_slug label ttl_sec f now db = do
  require loopback loopback_only
  let slug = trim_space hub_slug
  let name = trim_space label
  require (not (is_empty slug || is_empty name)) hub_slug_and_label_required
  h ← or_fail (get_hub_by_slug db slug) hub_not_found
  require (configured h) hub_not_configured
  at ← create_token_for_device w (cloud_mint f name (time_add now (token_ttl ttl_sec)) now) h.id db
  ok (at.0, at.1, h)

-- internalTokenParam: ids that are no positive number are refused before.
unfoldable pub internal_token : Bool → ℕ → Db → Result Token
internal_token loopback id db = do
  require loopback loopback_only
  or_fail (get_token_by_id db id) token_not_found

-- internalTokenDevice
unfoldable pub token_device : Token → Db → Option Device
token_device t db = elim t.consumed_by_device_id [ none ↦ none | some id ↦ get_device_by_id db id ]

-- handleInternalWGTokenGet
unfoldable pub internal_get : Bool → ℕ → Db → Result (Token × Option Device)
internal_get loopback id db = do t ← internal_token loopback id db; ok (t, token_device t db)

abbrev remove_and_unbind : Device → ℕ → Db → Result Db
remove_and_unbind d now db = do
  db1 ← mark_device_removed d.id now db
  ok (clear_if_bound (get_hub_by_id db1 d.hub_id) d.id now db1)

unfoldable pub release_device : Option Device → ℕ → Db → Result Db
release_device none now db = ok db
release_device (some d) now db = if is_live d then remove_and_unbind d now db else ok db

unfoldable pub release_token : Token → ℕ → Db → Result Db
release_token t now db = if is_some t.revoked_at then ok db else revoke_token t.id now db

-- handleInternalWGTokenRelease: the device's id and address are shown.
unfoldable pub internal_release : Bool → ℕ → ℕ → Db → Result (Db × Option (String × String))
internal_release loopback id now db = do
  t ← internal_token loopback id db
  let d = token_device t db
  db1 ← release_device d now db
  db2 ← release_token t now db1
  ok (db2, elim d [ none ↦ none | some d ↦ some (d.device_id, d.device_ip) ])

unfoldable pub link_all : (String → Db → Db × ℕ) → List String → Db × ℕ → Db × ℕ
link_all link [] at = at
link_all link (s ∷ rest) (db, n) =
    let key = trim_space s in
    link_all link rest
      (if is_empty key then (db, n) else (let (db1, k) = link key db in (db1, n + k)))

-- handleInternalWGDeviceLink: the rows that have been linked are counted.
unfoldable pub internal_link : Bool → String → List String → List String → Db → Result (Db × ℕ)
internal_link loopback host_id pubkeys device_ips db = do
  require loopback loopback_only
  let host = trim_space host_id
  require (not (is_empty host)) host_id_required
  ok (
      link_all (λ ip. link_device_host_by_device_ip ip host) device_ips
        (link_all (λ pk. link_device_host_by_pubkey pk host) pubkeys (db, 0)))
