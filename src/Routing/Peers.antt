-- ===== src/Routing/Peers.antt =====
-- The answers to /v1/peers and /v1/hub/peers: `buildPeerListResponse`, `hubEndpointFor` and
-- `handleWGHubPeers` of internal/wg/handlers.go.
use polar_wg.Store.Links.{hub_link_set}
use polar_wg.Store.Hubs.{get_hub_by_id, list_hubs}
use polar_wg.Store.Devices.{
  list_devices_in_hub, hub_ids_for_host, get_device_by_id, list_devices_in_site,
}
use polar_wg.Errors.{not_the_hub, require, no_rows, or_fail, err, ok, Result}
use polar_wg.Net.{host_port, net_text, first_lan_ip, parse_mesh_cidr, LanAddr, MeshNet, World}
use polar_wg.Store.Rows.{Policy, Device, Db}
use polar_wg.Routing.{
  egress_allowed_extra, configured, other_configured_hub_peers, cross_hub_allowed_extra, Hub,
  HubPeer,
}
use polar_wg.Errors.{◌>>=◌, ◌>>◌}
use polar_wg.Base.{
  trim_suffix, length, any, ◌||◌, ◌&&◌, none, is_empty, select, ◌==◌, map, ltb, false, not, ◌++◌,
  is_some_of, some, str_eq, append, Bool, ◌∷◌, [], Option, String, ℕ, List, if◌then◌else◌,
}

pub record Peer : Type 0 where
  pub pubkey : String
  pub wg_ip : String
  pub endpoint : String
  pub hostname : String
  pub site_slug : String
  pub allowed_extra : List String

pub record PeerList : Type 0 where
  pub device_id : String
  pub device_ip : String
  pub site_slug : String
  pub hub_slug : String
  pub mesh_cidr : String
  pub hub_pubkey : String
  pub hub_endpoint : String
  pub hub_wg_ip : String
  pub peers : List Peer
  pub keepalive_sec : ℕ
  pub refresh_sec : ℕ
  pub policy : Option Policy
  pub token_expires : Option ℕ

-- What hubEndpointFor asks of Go's net: the host of net.SplitHostPort, net.ParseIP, the addresses of
-- net.LookupHost (none if it fails; an answer kept for five minutes is taken for a fresh one), and
-- IsPrivate of a text that parses.
pub record Resolver : Type 0 where
  pub split_host : String → Option String
  pub is_ip : String → Bool
  pub lookup_host : String → List String
  pub is_private : String → Bool

abbrev lan_endpoint : List LanAddr → ℕ → String
lan_endpoint [] port = ""
lan_endpoint (a ∷ addrs) port =
    let ip = first_lan_ip a.cidr in if is_empty ip then "" else host_port ip port

abbrev lan_peer : Device → Peer
lan_peer d = record {
  pubkey = d.pubkey;
  wg_ip = d.device_ip;
  endpoint = lan_endpoint d.lan_addrs d.wg_listen_port;
  hostname = d.hostname;
  site_slug = "";
  allowed_extra = [];
}

-- The direct peers of a device: the others at its site, isolated ones excepted.
unfoldable pub lan_peers : Db → Device → List Peer
lan_peers db d =
    if d.isolated
    then []
    else map lan_peer
        (select (λ (p : Device). not p.isolated) (list_devices_in_site db d.site_id d.id))

abbrev private_host : Resolver → Option String → Bool
private_host r none = false
private_host r (some host) = r.is_private host

-- hubEndpointResolvesTo
unfoldable pub resolves_to : Resolver → String → String → Bool
resolves_to r host ip =
    str_eq host ip || (not (r.is_ip host) && any (λ x. str_eq x ip) (r.lookup_host host))

abbrev same_nat : Resolver → Option String → Option String → Bool
same_nat r (some hub_host) (some dev_host) = resolves_to r hub_host dev_host
same_nat r _ _ = false

abbrev lan_or : Resolver → String → Option Device → String
lan_or r ep none = ep
lan_or r ep (some hd) =
    if not (is_empty hd.wg_endpoint) && private_host r (r.split_host hd.wg_endpoint)
    then hd.wg_endpoint
    else ep

abbrev behind_hub : Resolver → Db → Hub → Device → Option ℕ → String
behind_hub r db h d none = h.endpoint
behind_hub r db h d (some bound) =
    if not (is_empty d.wg_endpoint)
      && (not (is_empty h.endpoint)
          && same_nat r (r.split_host h.endpoint) (r.split_host d.wg_endpoint))
    then lan_or r h.endpoint (get_device_by_id db bound)
    else h.endpoint

unfoldable pub hub_endpoint_for : Resolver → Db → Hub → Device → String
hub_endpoint_for r db h d = behind_hub r db h d h.bound_device_id

-- The hub's own network, or nothing if it does not parse.
abbrev own_network : Result MeshNet → List String
own_network (ok m) = net_text m ∷ []
own_network (err e) = []

unfoldable pub spoke_allowed_extra : World → Db → Device → Hub → List String
spoke_allowed_extra w db d h =
    own_network (parse_mesh_cidr w h.mesh_cidr)
    ++ (cross_hub_allowed_extra w (list_hubs db) h.id h.mesh_cidr (hub_link_set db h.id)
          (hub_ids_for_host db d.host_id d.hostname)
        ++ egress_allowed_extra d.egress_hub_id h (list_hubs db))

abbrev hub_as_peer : World → Resolver → Db → Device → Hub → Peer
hub_as_peer w r db d h = record {
  pubkey = h.pubkey;
  wg_ip = h.wg_ip;
  endpoint = hub_endpoint_for r db h d;
  hostname = "";
  site_slug = "hub";
  allowed_extra = spoke_allowed_extra w db d h;
}

abbrev fabric_peer : HubPeer → Peer
fabric_peer e = record {
  pubkey = e.pubkey;
  wg_ip = trim_suffix "/32" e.wg_ip;
  endpoint = e.endpoint;
  hostname = "";
  site_slug = e.hostname;
  allowed_extra = e.allowed_extra;
}

-- What follows the direct peers: the other hubs for the hub itself, the hub for a spoke of a hub that
-- is up, nothing otherwise.
unfoldable pub hub_peers : World → Resolver → Db → Device → Hub → List Peer
hub_peers w r db d h =
    if is_some_of h.bound_device_id d.id
    then map fabric_peer
        (other_configured_hub_peers w (list_hubs db) h.id h.mesh_cidr (hub_link_set db h.id))
    else (if configured h then hub_as_peer w r db d h ∷ [] else [])

unfoldable pub build_peer_list : World → Resolver → Db → Device → Hub → PeerList
build_peer_list w r db d h = record {
  device_id = d.device_id;
  device_ip = d.device_ip;
  site_slug = d.site_slug;
  hub_slug = h.slug;
  mesh_cidr = h.mesh_cidr;
  hub_pubkey = h.pubkey;
  hub_endpoint = h.endpoint;
  hub_wg_ip = h.wg_ip;
  peers = lan_peers db d ++ hub_peers w r db d h;
  keepalive_sec = h.keepalive_sec;
  refresh_sec = h.refresh_sec;
  policy = h.policy;
  token_expires = d.token_expires_at;
}

abbrev spoke_entry : Device → HubPeer
spoke_entry d = record {
  pubkey = d.pubkey;
  wg_ip = append d.device_ip "/32";
  hostname = d.hostname;
  endpoint = "";
  allowed_extra = [];
}

abbrev pub later : ℕ → Option ℕ → ℕ
later t none = t
later t (some u) = if ltb t u then u else t

-- The loops that take the latest time: over the spokes, then over the other hubs.
unfoldable pub spokes_rev : ℕ → List Device → ℕ
spokes_rev t [] = t
spokes_rev t (d ∷ devices) = spokes_rev (later (later t (some d.created_at)) d.last_seen_at) devices

unfoldable pub hubs_rev : ℕ → ℕ → List Hub → ℕ
hubs_rev own t [] = t
hubs_rev own t (h ∷ hubs) =
    let skipped = hubs_rev own t hubs in
    let taken = hubs_rev own (later t (some h.updated_at)) hubs in
    if h.id == own then skipped else taken

pub record HubPeerList : Type 0 where
  pub peers : List HubPeer
  pub rev : ℕ × ℕ
  pub refresh_sec : ℕ

-- handleWGHubPeers, after the bearer is checked. The two numbers of `rev` are printed with a dash
-- between them.
unfoldable pub hub_peer_list : World → Db → Device → Result HubPeerList
hub_peer_list w db d = do
  h ← or_fail (get_hub_by_id db d.hub_id) no_rows
  require (is_some_of h.bound_device_id d.id) not_the_hub
  let spokes = list_devices_in_hub db h.id d.id
  let hubs = list_hubs db
  let peers =
      map spoke_entry spokes
      ++ other_configured_hub_peers w hubs h.id h.mesh_cidr (hub_link_set db h.id)
  ok record {
    peers = peers;
    rev = (hubs_rev h.id (spokes_rev 0 spokes) hubs, length peers);
    refresh_sec = h.refresh_sec;
  }
