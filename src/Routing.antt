-- ===== src/Routing.antt =====
-- What the control plane tells a WireGuard peer to route: `otherConfiguredHubs`,
-- `crossHubAllowedExtra`, `otherConfiguredHubPeers`, `subnetRoutes` and `egressAllowedExtra` of
-- internal/wg/handlers.go. A set of hub ids is the list of its members.
pub mod Validate
pub mod Peers
pub mod Fabric
pub mod Reach
pub mod Egress
use polar_wg.Store.Rows.{configured, Hub}
use polar_wg.Net.{hub_mesh_network, World}
use polar_wg.Base.{
  append, none, contains_char, any, ◌&&◌, ◌||◌, find, elem, trim_space, is_empty, some, select,
  ◌==◌, str_eq, not, map, [], ◌∷◌, ℕ, String, Option, List, if◌then◌else◌,
}

-- The loop of otherConfiguredHubs, with the networks that are `seen`.
unfoldable pub hubs_unseen : World → ℕ → List String → List Hub → List Hub
hubs_unseen w own seen [] = []
hubs_unseen w own seen (h ∷ hubs) =
    let n = hub_mesh_network w h.mesh_cidr in
    let skipped = hubs_unseen w own seen hubs in
    let taken = hubs_unseen w own (n ∷ seen) hubs in
    if (h.id == own || not (configured h)) || is_empty (trim_space h.endpoint)
    then skipped
    else (if is_empty n || any (str_eq n) seen then skipped else h ∷ taken)

unfoldable pub other_configured_hubs : World → List Hub → ℕ → String → List Hub
other_configured_hubs w hubs own own_cidr =
    let n = hub_mesh_network w own_cidr in
    hubs_unseen w own (if is_empty n then [] else n ∷ []) hubs

unfoldable pub cross_hub_allowed_extra :
    World → List Hub → ℕ → String → List ℕ → List ℕ → List String
cross_hub_allowed_extra w hubs own own_cidr linked skip =
    map (λ (h : Hub). hub_mesh_network w h.mesh_cidr)
      (select (λ h. elem h.id linked && not (elem h.id skip))
        (other_configured_hubs w hubs own own_cidr))

abbrev pub default_route : String
default_route = "0.0.0.0/0"

unfoldable pub subnet_routes : List String → List String
subnet_routes [] = []
subnet_routes (r ∷ routes) =
    let rest = subnet_routes routes in
    if str_eq (trim_space r) default_route then rest else trim_space r ∷ rest

pub record HubPeer : Type 0 where
  pub pubkey : String
  pub wg_ip : String
  pub hostname : String
  pub endpoint : String
  pub allowed_extra : List String

abbrev hub_peer : World → Hub → HubPeer
hub_peer w h = record {
  pubkey = h.pubkey;
  wg_ip =
      if not (is_empty h.wg_ip) && not (contains_char b'/' h.wg_ip)
      then append h.wg_ip "/32"
      else h.wg_ip;
  hostname = append "hub:" h.slug;
  endpoint = h.endpoint;
  allowed_extra = hub_mesh_network w h.mesh_cidr ∷ subnet_routes h.advertised_routes;
}

unfoldable pub other_configured_hub_peers : World → List Hub → ℕ → String → List ℕ → List HubPeer
other_configured_hub_peers w hubs own own_cidr linked =
    map (hub_peer w) (select (λ h. elem h.id linked) (other_configured_hubs w hubs own own_cidr))

abbrev reachable_routes : Option Hub → List String
reachable_routes none = []
reachable_routes (some h) =
    if not (configured h) || is_empty (trim_space h.endpoint)
    then []
    else subnet_routes h.advertised_routes

-- egressAllowedExtra, for a hub that is there.
unfoldable pub egress_allowed_extra : Option ℕ → Hub → List Hub → List String
egress_allowed_extra none own hubs = []
egress_allowed_extra (some egress) own hubs =
    if egress == own.id
    then map trim_space own.advertised_routes
    else reachable_routes (find (λ h. h.id == egress) hubs)
