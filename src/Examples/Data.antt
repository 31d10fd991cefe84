-- ===== src/Examples/Data.antt =====
-- A database with one hub that is up, and registrations on it.
use polar_wg.Base.{
  refl, ◌≡◌, parse_decimal, split, cut, is_space, trim_left, trim_right, trim_space, ℕ, String,
  false, none, some, [], ◌∷◌, append,
}
use polar_wg.Errors.{ok}
use polar_wg.Net.{
  leading_zero, parse_octet, parse_ipv4, parse_cidr4, parse_cidr, MeshNet, parse_mesh_cidr, World,
}
use polar_wg.Store.Rows.{Hub, Site, Token, Device, Db, Role}
use polar_wg.Alloc.Input.{Allocated, RegisterInput, Call}

-- The hash of a text is the text behind a mark; no CIDR is one of IPv6.
abbrev pub world : World
world = record { hash = append "#"; ipv6_cidr = λ s. none }

abbrev pub home : Hub
home = record {
  id = 1;
  slug = "home";
  label = "Home";
  pubkey = "hubkey";
  endpoint = "203.0.113.7:51820";
  wg_ip = "100.64.0.1";
  mesh_cidr = "100.64.0.0/24";
  keepalive_sec = 25;
  refresh_sec = 300;
  bound_device_id = some 1;
  advertised_routes = [];
  policy = none;
  created_at = 10;
  updated_at = 10;
}

abbrev pub token : ℕ → String → Role → Token
token id hash role = record {
  id = id;
  label = "t";
  token_hash = hash;
  prefix = "polar_wg_";
  role = role;
  hub_id = some 1;
  public_endpoint = none;
  mesh_cidr_pref = none;
  expires_at = none;
  consumed_at = none;
  consumed_by_device_id = none;
  revoked_at = none;
  created_at = 10;
  created_by_user_id = "u";
}

abbrev pub hub_site : Site
hub_site = record {
  id = 1;
  hub_id = 1;
  slug = "home:hub";
  s_index = 0;
  label = "hub site";
  public_ip = "203.0.113.7";
  lan_cidr = "";
  created_at = 10;
}

abbrev pub hub_device : Device
hub_device = record {
  id = 1;
  device_id = "dev_1";
  hub_id = 1;
  site_id = 1;
  d_index = 1;
  device_ip = "100.64.0.1";
  pubkey = "hubkey";
  hostname = "gw";
  host_id = "";
  os = "linux";
  arch = "amd64";
  agent_ver = "1";
  wg_listen_port = 51820;
  lan_addrs = [];
  wg_endpoint = "203.0.113.7:51820";
  token_hash = "#hubtoken";
  token_expires_at = none;
  egress_hub_id = none;
  isolated = false;
  created_at = 10;
  last_seen_at = none;
  removed_at = none;
  site_slug = "";
  hub_slug = "";
}

abbrev pub db0 : Db
db0 = record {
  hubs = home ∷ [];
  links = [];
  sites = hub_site ∷ [];
  tokens = token 1 "#hubtoken" Role.hub ∷ token 2 "#secret" Role.device ∷ [];
  devices = hub_device ∷ [];
  heartbeats = [];
  next_hub = 2;
  next_link = 1;
  next_site = 2;
  next_token = 3;
  next_device = 2;
}

abbrev pub laptop : RegisterInput
laptop = record {
  token = "secret";
  pubkey = " laptopkey ";
  hostname = "laptop";
  host_id = "";
  os = "darwin";
  arch = "arm64";
  agent_ver = "1";
  lan_addrs = record { iface = "en0"; cidr = "192.168.11.42/24" } ∷ [];
  isolated = false;
  wg_listen_port = 51820;
  site_slug = "";
  public_ip = "198.51.100.4";
}

abbrev pub call : Call
call = record { now = 20; device_id = "dev_2" }

-- The network of the hub.
abbrev pub home_mesh : MeshNet
home_mesh = record { ip = 1681915904; ones = 24 }

pub home_parsed : parse_mesh_cidr world "100.64.0.0/24" ≡ ok home_mesh
unfolding parse_mesh_cidr parse_cidr parse_cidr4 trim_space trim_right trim_left is_space cut
    parse_ipv4 split parse_octet parse_decimal leading_zero
home_parsed = refl

abbrev pub secret : Token
secret = token 2 "#secret" Role.device

abbrev pub used : Token
used = record secret { consumed_at = some 20; consumed_by_device_id = some 2 }

abbrev pub laptop_row : Device
laptop_row = record {
  id = 2;
  device_id = "dev_2";
  hub_id = 1;
  site_id = 2;
  d_index = 2;
  device_ip = "100.64.0.2";
  pubkey = "laptopkey";
  hostname = "laptop";
  host_id = "";
  os = "darwin";
  arch = "arm64";
  agent_ver = "1";
  wg_listen_port = 51820;
  lan_addrs = laptop.lan_addrs;
  wg_endpoint = "198.51.100.4:51820";
  token_hash = "#secret";
  token_expires_at = none;
  egress_hub_id = none;
  isolated = false;
  created_at = 20;
  last_seen_at = none;
  removed_at = none;
  site_slug = "";
  hub_slug = "";
}

abbrev pub site_1 : Site
site_1 = record {
  id = 2;
  hub_id = 1;
  slug = "home:site_1";
  s_index = 1;
  label = "";
  public_ip = "198.51.100.4";
  lan_cidr = "192.168.11.0/24";
  created_at = 20;
}

-- The database after the laptop's registration.
abbrev pub db1 : Db
db1 = record db0 {
  sites = hub_site ∷ site_1 ∷ [];
  tokens = token 1 "#hubtoken" Role.hub ∷ used ∷ [];
  devices = hub_device ∷ laptop_row ∷ [];
  next_site = 3;
  next_device = 3;
}

abbrev pub enrolled : Db × Allocated
enrolled = (
  db1,
  record {
    device = record laptop_row { site_slug = "home:site_1"; hub_slug = "home" };
    hub = home;
    role = Role.device;
    plaintext_token = "secret";
    token_expires_at = none;
  },
)

-- The hub before its device has registered.
abbrev pub unbound : Hub
unbound = record home { bound_device_id = none; pubkey = "" }

abbrev pub empty_db : Db
empty_db = record db0 {
  hubs = unbound ∷ [];
  sites = [];
  devices = [];
  next_site = 1;
  next_device = 1;
}

-- The hub's own registration.
abbrev pub gateway : RegisterInput
gateway = record laptop {
  token = "hubtoken";
  pubkey = "hubkey";
  hostname = "gw";
  public_ip = "203.0.113.7";
}
