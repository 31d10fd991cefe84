-- ===== src/Routing/Validate.antt =====
-- The checks on an operator's input: `validateAdvertisedRoutes`, `validateMeshCIDRDisjoint` and
-- `validateWGPolicy` of internal/wg/handlers.go. The parsers of Go's net and net/url are arguments.
use polar_wg.Routing.{default_route}
use polar_wg.Net.{cidr_overlaps, parse_mesh_cidr, World, MeshNet}
use polar_wg.Errors.{
  route_overlaps, mesh_overlaps, doh_url_required, invalid_pac_url, invalid_dns_mode, invalid_proxy,
  invalid_dns_server, empty_route, require, invalid_route, err, ok, Result,
}
use polar_wg.Store.Rows.{Hub, Policy, ProxyPolicy, DnsPolicy}
use polar_wg.Errors.{◌>>=◌, ◌>>◌}
use polar_wg.Base.{
  ◌&&◌, ◌==◌, str_eq, any, ◌||◌, [], is_empty, not, trim_space, none, false, some, ℕ, ◌∷◌, List,
  Bool, String, Option, if◌then◌else◌,
}

abbrev overlap : MeshNet → Result MeshNet → Bool
overlap n (ok m) = cidr_overlaps n m
overlap n (err e) = false

-- A hub whose mesh_cidr does not parse overlaps nothing.
abbrev pub overlaps_hub : World → MeshNet → Hub → Bool
overlaps_hub w n h = overlap n (parse_mesh_cidr w h.mesh_cidr)

-- The parser's error is wrapped.
abbrev invalid : Result MeshNet → Result MeshNet
invalid (ok n) = ok n
invalid (err e) = err invalid_route

abbrev check_subnet : World → List Hub → String → Result (Unit {0})
check_subnet w hubs r = do
  n ← invalid (parse_mesh_cidr w r)
  require (not (any (overlaps_hub w n) hubs)) route_overlaps

abbrev check_route : World → List Hub → String → Result (Unit {0})
check_route w hubs r = do
  require (not (is_empty r)) empty_route
  if str_eq r default_route then ok tt else check_subnet w hubs r

unfoldable pub validate_advertised_routes : World → List String → List Hub → Result (Unit {0})
validate_advertised_routes w [] hubs = ok tt
validate_advertised_routes w (r ∷ routes) hubs = do
  check_route w hubs (trim_space r)
  validate_advertised_routes w routes hubs

unfoldable pub validate_mesh_cidr_disjoint : World → String → List Hub → ℕ → Result (Unit {0})
validate_mesh_cidr_disjoint w mesh_cidr hubs self = do
  n ← parse_mesh_cidr w mesh_cidr
  require (not (any (λ h. not (h.id == self) && overlaps_hub w n h) hubs)) mesh_overlaps

-- net.ParseIP, net.SplitHostPort and url.Parse: whether they accept a text.
pub record Parsers : Type 0 where
  pub is_ip : String → Bool
  pub is_host_port : String → Bool
  pub is_url : String → Bool

abbrev check_dns : Parsers → DnsPolicy → Result (Unit {0})
check_dns p d = do
  require (not (any (λ s. not (p.is_ip (trim_space s))) d.servers)) invalid_dns_server
  require (is_empty d.mode || (str_eq d.mode "plain" || str_eq d.mode "doh")) invalid_dns_mode
  require (not (str_eq d.mode "doh" && is_empty (trim_space d.doh_url))) doh_url_required

abbrev check_proxy : Parsers → ProxyPolicy → Result (Unit {0})
check_proxy p x = do
  require (is_empty x.http || p.is_host_port x.http) invalid_proxy
  require (is_empty x.https || p.is_host_port x.https) invalid_proxy
  require (is_empty x.pac_url || p.is_url x.pac_url) invalid_pac_url

abbrev optional {ℓ} : {A : Type ℓ} → (A → Result (Unit {0})) → Option A → Result (Unit {0})
optional f none = ok tt
optional f (some a) = f a

unfoldable pub validate_policy : Parsers → Option Policy → Result (Unit {0})
validate_policy p none = ok tt
validate_policy p (some policy) = do
  optional (check_dns p) policy.dns
  optional (check_proxy p) policy.proxy
