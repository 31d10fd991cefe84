-- ===== src/Steps/Machine.antt =====
-- The steps of the control plane, the databases that they reach from empty tables, and what holds of
-- each of them.
use polar_wg.Steps.Updates.{KeepsNetwork, hub_update-Alike}
use polar_wg.Routing.Validate.{Parsers}
use polar_wg.Store.Links.{delete_hub_link}
use polar_wg.Api.{leave, heartbeat, Beat, token_refresh}
use polar_wg.Steps.Hubs.{create_token_for_hub-IsSound, drop_hub-IsSound}
use polar_wg.Cloud.{internal_link, internal_release, internal_mint, Fresh}
use polar_wg.Steps.Services.{
  create_token_for_device-Alike, internal_link-Alike, internal_release-Alike, internal_mint-Alike,
}
use polar_wg.Steps.Requests.{
  link_create-Alike, device_remove-Alike, device_update-Alike, leave-Alike, heartbeat-Alike,
  token_refresh-Alike,
}
use polar_wg.Steps.Statements.{
  remove_victims-Alike, clear_hub_bind-Alike, delete_hub_link-Alike, revoke_token-Alike,
}
use polar_wg.Store.Tokens.{revoke_token}
use polar_wg.Steps.Frame.{Alike-IsSound}
use polar_wg.Steps.Registration.{do_allocate-IsSound}
use polar_wg.Mint.{create_token_for_device, create_token_for_hub, wanted_mesh, MintInput, HubInput}
use polar_wg.Alloc.Input.{Allocated, RegisterInput, Call}
use polar_wg.Steps.{Hub, IsSound}
use polar_wg.Net.{parse_mesh_cidr, MeshNet, World}
use polar_wg.Store.Rows.{HubLink, Device, Token, Db}
use polar_wg.Admin.{
  hub_update, HubChange, minted_hub, minted, expiry, hub_reset_bind, link_create, device_remove,
  device_update, hub_delete, TokenRequest, token_create,
}
use polar_wg.Gc.{cutoff_of, is_stale, sweep}
use polar_wg.Store.Hubs.{clear_hub_bind, drop_hub, delete_hub}
use polar_wg.Alloc.{do_allocate}
use polar_wg.Base.{
  ltb, Bool-cases, List, Bool, select, Option, false, ◌≤◌, str_eq, any, ◌≡◌, String, arith, [], ℕ,
  refl, inl, inr,
}
use polar_wg.Errors.{err, ok, Result}
use mathlib.Core.Path.{subst, sym}

-- The tables after scripts/migrate/wg-schema.sql: no rows, and each BIGSERIAL at its first value.
abbrev pub blank : Db
blank = record {
  hubs = [];
  links = [];
  sites = [];
  tokens = [];
  devices = [];
  heartbeats = [];
  next_hub = 1;
  next_link = 1;
  next_site = 1;
  next_token = 1;
  next_device = 1;
}

-- The network that a token's hub would take is no smaller than a /24.
abbrev pub IsWide : World → HubInput → Db → Type 0
IsWide w i db =
    (mesh : String) (n : MeshNet)
    → wanted_mesh i db ≡ ok mesh
    → parse_mesh_cidr w mesh ≡ ok n
    → n.ones ≤ 24

-- A request that succeeds, or a turn of the sweep. The device id that a registration draws is no
-- row's, and a changed hub keeps its network and address. The creation of a token may also write a
-- hub and fail then.
pub data Step (w : World) : Db → Db → Type 0 where
  registered :
      {db : Db} (c : Call) (i : RegisterInput) (r : Db × Allocated)
      → any (λ (d : Device). str_eq d.device_id c.device_id) db.devices ≡ false
      → do_allocate w c i db ≡ ok r
      → Step w db r.0
  token_created :
      {db : Db} (r : TokenRequest) (m : MintInput)
      → IsWide w r.hub db
      → Step w db (token_create w r m db).0
  token_revoked : {db db' : Db} (id now : ℕ) → revoke_token id now db ≡ ok db' → Step w db db'
  token_refreshed :
      {db : Db} (raw claimed fresh : String) (now : ℕ) (r : Db × Option ℕ)
      → token_refresh w raw claimed fresh now db ≡ ok r
      → Step w db r.0
  heard_from :
      {db db' : Db} (raw claimed : String) (b : Beat) (now : ℕ)
      → heartbeat w raw claimed b now db ≡ ok db'
      → Step w db db'
  left :
      {db db' : Db} (raw claimed : String) (now : ℕ)
      → leave w raw claimed now db ≡ ok db'
      → Step w db db'
  egress_chosen :
      {db db' : Db} (id : ℕ) (egress : Option ℕ)
      → device_update id egress db ≡ ok db'
      → Step w db db'
  device_removed : {db db' : Db} (id now : ℕ) → device_remove id now db ≡ ok db' → Step w db db'
  hubs_linked :
      {db : Db} (a b now : ℕ) (r : Db × HubLink) → link_create a b now db ≡ ok r → Step w db r.0
  hubs_unlinked : {db db' : Db} (id : ℕ) → delete_hub_link id db ≡ ok db' → Step w db db'
  hub_unbound : {db : Db} (id now : ℕ) → Step w db (hub_reset_bind id now db)
  hub_changed :
      {db : Db} (p : Parsers) (id : ℕ) (r : HubChange) (now : ℕ) (r' : Db × Option Hub)
      → KeepsNetwork r
      → hub_update w p id r now db ≡ ok r'
      → Step w db r'.0
  hub_deleted : {db db' : Db} (id : ℕ) → hub_delete id db ≡ ok db' → Step w db db'
  minted_inside :
      {db : Db} (loopback : Bool) (slug label : String) (ttl : ℕ) (f : Fresh) (now : ℕ)
      (r : Db × Token × Hub)
      → internal_mint w loopback slug label ttl f now db ≡ ok r
      → Step w db r.0
  released_inside :
      {db : Db} (loopback : Bool) (id now : ℕ) (r : Db × Option (String × String))
      → internal_release loopback id now db ≡ ok r
      → Step w db r.0
  hosts_linked :
      {db : Db} (loopback : Bool) (host_id : String) (pubkeys ips : List String) (r : Db × ℕ)
      → internal_link loopback host_id pubkeys ips db ≡ ok r
      → Step w db r.0
  swept : {db : Db} (now ttl : ℕ) → Step w db (sweep now ttl db).0

pub data Reachable (w : World) : Db → Type 0 where
  first : Reachable w blank
  next : {db db' : Db} → Reachable w db → Step w db db' → Reachable w db'

blank-IsSound : (w : World) → IsSound w blank
blank-IsSound w = record {
  addressed = record {
    placed = tt;
    meshes = record { disjoint = λ i j a b differ e f. cc; wide = λ i a e. cc };
    fresh = tt;
  };
  numbered = (tt, tt);
  counted = omega arith;
  addresses = tt;
  distinct = tt;
}

minted-IsSound :
    (w : World) (db : Db) (m : Result (Db × Token))
    → ((r : Db × Token) → m ≡ ok r → IsSound w r.0)
    → IsSound w db
    → IsSound w (minted db m).0
minted-IsSound w db (ok r) f v = f r refl
minted-IsSound w db (err e) f v = v

minted_hub-same : (r : Db × Result (Token × Hub)) → (minted_hub r).0 ≡ r.0
minted_hub-same (db, ok r) = refl
minted_hub-same (db, err e) = refl

token_create-IsSound :
    (w : World) (r : TokenRequest) (m : MintInput) (db : Db)
    → IsWide w r.hub db
    → IsSound w db
    → IsSound w (token_create w r m db).0
unfolding token_create
token_create-IsSound w r m db wide v =
    let m' = record m { expires_at = expiry r m.now } in
    elim (Bool-cases (str_eq r.role "hub")) [
      | inl e ↦
          rw (token_create, e)
            (subst (IsSound w) (sym (minted_hub-same (create_token_for_hub w m' r.hub db)))
              (create_token_for_hub-IsSound w m' r.hub db v wide))
      | inr e ↦ elim (Bool-cases (str_eq r.role "device")) [
        | inr f ↦ rw (token_create, e, f) v
        | inl f ↦ elim (Bool-cases (ltb 0 r.hub_id)) [
          | inr g ↦ rw (token_create, e, f, g) v
          | inl g ↦
              rw (token_create, e, f, g)
                (minted-IsSound w db (create_token_for_device w m' r.hub_id db)
                  (λ r' done.
                    Alike-IsSound w db r'.0 (create_token_for_device-Alike w m' r.hub_id db r' done)
                      v)
                  v)
        ]
      ]
    ]

hub_delete-IsSound :
    (w : World) (id : ℕ) (db db' : Db) → hub_delete id db ≡ ok db' → IsSound w db → IsSound w db'
unfolding delete_hub
hub_delete-IsSound w id db db' done v =
    let same : drop_hub id db ≡ db' = ground arith in
    subst (IsSound w) same (drop_hub-IsSound w id db v)

-- Every step keeps the invariant.
pub Step-IsSound : (w : World) (db db' : Db) → Step w db db' → IsSound w db → IsSound w db'
unfolding sweep
Step-IsSound w db db' (registered c i r fresh done) v = do_allocate-IsSound w c i db r v fresh done
Step-IsSound w db db' (token_created r m wide) v = token_create-IsSound w r m db wide v
Step-IsSound w db db' (token_revoked id now done) v =
    Alike-IsSound w db db' (revoke_token-Alike w id now db db' done) v
Step-IsSound w db db' (token_refreshed raw claimed fresh now r done) v =
    Alike-IsSound w db r.0 (token_refresh-Alike w raw claimed fresh now db r done) v
Step-IsSound w db db' (heard_from raw claimed b now done) v =
    Alike-IsSound w db db' (heartbeat-Alike w raw claimed b now db db' done) v
Step-IsSound w db db' (left raw claimed now done) v =
    Alike-IsSound w db db' (leave-Alike w raw claimed now db db' done) v
Step-IsSound w db db' (egress_chosen id egress done) v =
    Alike-IsSound w db db' (device_update-Alike w id egress db db' done) v
Step-IsSound w db db' (device_removed id now done) v =
    Alike-IsSound w db db' (device_remove-Alike w id now db db' done) v
Step-IsSound w db db' (hubs_linked a b now r done) v =
    Alike-IsSound w db r.0 (link_create-Alike w a b now db r done) v
Step-IsSound w db db' (hubs_unlinked id done) v =
    Alike-IsSound w db db' (delete_hub_link-Alike w id db db' done) v
Step-IsSound w db db' (hub_unbound id now) v =
    Alike-IsSound w db (clear_hub_bind id now db) (clear_hub_bind-Alike w id now db) v
Step-IsSound w db db' (hub_changed p id r now r' keeps done) v =
    Alike-IsSound w db r'.0 (hub_update-Alike w r keeps p id now db r' v done) v
Step-IsSound w db db' (hub_deleted id done) v = hub_delete-IsSound w id db db' done v
Step-IsSound w db db' (minted_inside loopback slug label ttl f now r done) v =
    Alike-IsSound w db r.0 (internal_mint-Alike w loopback slug label ttl f now db r done) v
Step-IsSound w db db' (released_inside loopback id now r done) v =
    Alike-IsSound w db r.0 (internal_release-Alike w loopback id now db r done) v
Step-IsSound w db db' (hosts_linked loopback host_id pubkeys ips r done) v =
    Alike-IsSound w db r.0 (internal_link-Alike w loopback host_id pubkeys ips db r done) v
Step-IsSound w db db' (swept now ttl) v =
    Alike-IsSound w db (sweep now ttl db).0
      (remove_victims-Alike w now (select (is_stale (cutoff_of now ttl)) db.devices) db) v

-- Every database that the control plane reaches from empty tables is sound. A step is a
-- successful registration with a device id that no row has, the creation of a token whose
-- network is no smaller than a /24, a revocation, refresh, heartbeat, leave, change of egress,
-- removal, link or its deletion, update of a hub that names no network and no address, unbinding
-- or deletion of a hub, a mint, release or host link from the same machine, or a sweep. Sound:
-- every live device has the address that its hub's network gives its index, at a site of its
-- hub; the networks of different hubs do not overlap and are no smaller than a /24; the ids of
-- hubs and devices are below the next ones and those of hubs differ; and each hub's own address
-- is the first of its network.
pub Reachable-IsSound : (w : World) (db : Db) → Reachable w db → IsSound w db
Reachable-IsSound w db first = blank-IsSound w
Reachable-IsSound w db (next {db = before} path step) =
    Step-IsSound w before db step (Reachable-IsSound w before path)
