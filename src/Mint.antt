-- ===== src/Mint.antt =====
-- The minting of registration tokens: `createWGTokenForDevice` and `createWGTokenForHub` of
-- internal/wg/store.go, with the random plaintext and its shown prefix as arguments.
pub mod Grown
pub mod Hubs
pub mod Disjoint
pub mod Suggest
pub mod Draw
use polar_wg.Store.Tokens.{insert_token}
use polar_wg.Store.Hubs.{
  get_hub_by_slug, get_hub_by_id, create_hub, list_hubs, suggest_free_mesh_cidr,
}
use polar_wg.Routing.Validate.{validate_mesh_cidr_disjoint}
use polar_wg.Store.Rows.{Token, Role, Hub, Db}
use polar_wg.Net.{parse_mesh_cidr, World}
use polar_wg.Errors.{
  hub_slug_mismatch, hub_id_not_found, public_endpoint_required, or_fail, hub_slug_live,
  hub_slug_required, ok, label_required, err, require, Result, ◌>>=◌, ◌>>◌,
}
use polar_wg.Base.{
  ◌||◌, ◌&&◌, str_eq, none, some, is_some, trim_space, not, is_empty, ℕ, Option, String,
  if◌then◌else◌,
}

pub record MintInput : Type 0 where
  pub label : String
  pub user_id : String
  pub plaintext : String
  pub prefix : String
  pub expires_at : Option ℕ
  pub now : ℕ

pub record HubInput : Type 0 where
  pub slug : String
  pub label : String
  pub public_endpoint : String
  pub mesh_cidr : String

abbrev pub new_token : World → MintInput → Role → ℕ → Option String → Option String → Token
new_token w m role hub_id public_endpoint mesh_cidr = record {
  id = 0;
  label = trim_space m.label;
  token_hash = w.hash m.plaintext;
  prefix = m.prefix;
  role = role;
  hub_id = some hub_id;
  public_endpoint = public_endpoint;
  mesh_cidr_pref = mesh_cidr;
  expires_at = m.expires_at;
  consumed_at = none;
  consumed_by_device_id = none;
  revoked_at = none;
  created_at = m.now;
  created_by_user_id = m.user_id;
}

-- createWGTokenForDevice
unfoldable pub create_token_for_device : World → MintInput → ℕ → Db → Result (Db × Token)
create_token_for_device w m hub_id db = do
  require (not (is_empty (trim_space m.label))) label_required
  h ← or_fail (get_hub_by_id db hub_id) hub_id_not_found
  insert_token (new_token w m Role.device h.id none none) db

-- The network that is asked for, or the first free one.
unfoldable pub wanted_mesh : HubInput → Db → Result String
wanted_mesh i db = if is_empty i.mesh_cidr then suggest_free_mesh_cidr db else ok i.mesh_cidr

-- A hub that has the slug can be used again while it is unbound and was made with the same values.
unfoldable pub reuse_hub : String → String → Hub → Db → Result (Db × Hub)
reuse_hub endpoint mesh h db = do
  require (not (is_some h.bound_device_id)) hub_slug_live
  require (str_eq h.endpoint endpoint && (is_empty mesh || str_eq h.mesh_cidr mesh))
      hub_slug_mismatch
  ok (db, h)

unfoldable pub make_hub : World → HubInput → String → String → String → ℕ → Db → Result (Db × Hub)
make_hub w i slug endpoint mesh now db = do
  validate_mesh_cidr_disjoint w mesh (list_hubs db) 0
  create_hub w slug i.label endpoint mesh now db

-- The hub that has the slug, or a new one.
unfoldable pub hub_of_slug :
    World → HubInput → String → String → String → ℕ → Option Hub → Db → Result (Db × Hub)
hub_of_slug w i slug endpoint mesh now (some h) db = reuse_hub endpoint mesh h db
hub_of_slug w i slug endpoint mesh now none db = make_hub w i slug endpoint mesh now db

-- The hub of a new hub token, and the network that the token names. The hub's row is written by a
-- statement of its own, before the token's.
unfoldable pub hub_for_token : World → MintInput → HubInput → Db → Result ((Db × Hub) × String)
hub_for_token w m i db = do
  require (not (is_empty (trim_space m.label))) label_required
  let slug = trim_space i.slug
  require (not (is_empty slug)) hub_slug_required
  let endpoint = trim_space i.public_endpoint
  require (not (is_empty endpoint)) public_endpoint_required
  mesh ← wanted_mesh i db
  checked ← parse_mesh_cidr w mesh
  at ← hub_of_slug w i slug endpoint mesh m.now (get_hub_by_slug db slug) db
  ok (at, mesh)

-- createWGTokenForHub: the hub that it has made stays, also where the token cannot be written.
unfoldable pub token_for_hub :
    World → MintInput → HubInput → Result ((Db × Hub) × String) → Db → Db × Result (Token × Hub)
token_for_hub w m i (err e) db = (db, err e)
token_for_hub w m i (ok ((db1, h), mesh)) db =
    elim (insert_token
      (new_token w m Role.hub h.id (some (trim_space i.public_endpoint)) (some mesh)) db1) [
        | ok (db2, t) ↦ (db2, ok (t, h))
        | err e ↦ (db1, err e)
      ]

unfoldable pub create_token_for_hub : World → MintInput → HubInput → Db → Db × Result (Token × Hub)
create_token_for_hub w m i db = token_for_hub w m i (hub_for_token w m i db) db
