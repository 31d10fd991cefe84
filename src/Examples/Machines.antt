-- ===== src/Examples/Machines.antt =====
-- A run of the control plane: a hub's token is created and used, then a device's.
use polar_wg.Alloc.Index.{used_s_indexes, used_d_indexes, pick_free_s_index_in_hub, first_free}
use polar_wg.Alloc.Joining.{device_refusal, Joined}
use mathlib.Core.Path.{ap, sym, subst}
use polar_wg.Errors.Ends.{Ends}
use polar_wg.Steps.Progress.{
  reachable_registration_succeeds, reachable_registration-Ends, IsFirstCall,
}
use polar_wg.Steps.{IsSound}
use polar_wg.Routing.Validate.{validate_mesh_cidr_disjoint}
use polar_wg.Alloc.Sites.{
  resolve_or_create_site, lookup_site_by_auto_key_in_hub, current_hub_slug, create_site, auto_slug,
  lookup_site_by_slug_in_hub, insert_site, get_or_create_site,
}
use polar_wg.Store.Devices.{
  validate_pubkey, lookup_device_by_pubkey, insert_device, get_device_by_id,
}
use polar_wg.Net.{
  lan_cidr_network, first_lan_cidr, MeshNet, parse_octet, parse_mesh_cidr, parse_ipv4, parse_cidr4,
  parse_cidr, net_text, leading_zero, ipv4_text, hub_wg_ip_from_cidr, host_port, device_ip,
}
use polar_wg.Store.Hubs.{update_hub_bind, list_hubs, get_hub_by_slug, get_hub_by_id, create_hub}
use polar_wg.Store.Tokens.{lookup_unused_token, insert_token, consume_token}
use polar_wg.Steps.Machine.{
  registered, first, token_created, Reachable-IsSound, next, Reachable, IsWide, blank,
}
use polar_wg.Alloc.{
  Attempts, allocate_wg_device, listen_port, hub_device_ip, hub_device_endpoint, claim,
  bind_hub_device, do_allocate,
}
use polar_wg.Examples.Data.{
  site_1, home_parsed, laptop, home_mesh, secret, call, hub_site, token, home, hub_device, world,
}
use polar_wg.Admin.{TokenRequest, token_create}
use polar_wg.Mint.{
  wanted_mesh, token_for_hub, make_hub, hub_of_slug, hub_for_token, create_token_for_hub,
  create_token_for_device, MintInput, HubInput,
}
use polar_wg.Store.Rows.{configured, Role, Hub, Token, Db}
use polar_wg.Alloc.Input.{Allocated, RegisterInput, Call}
use polar_wg.Steps.Calls.{
  sent, LastTried, IsRefused, allocate_wg_device-Ends, retried_registration_succeeds,
}
use polar_wg.Base.{
  byte_len, is_empty, if◌then◌else◌, ◌⊎◌, ◌==◌, some, ◌<◌, length, arith, ◌≤◌, ◌∙◌, true, refl,
  some, ◌≡◌, ◌∷◌, trim_space, trim_right, trim_left, split, parse_decimal, itoa, is_space, cut,
  false, none, [], ℕ, String,
}
use polar_wg.Errors.{err, could_not_serialize, ok, ok_inj}

abbrev wanted_hub : HubInput
wanted_hub = record {
  slug = "home";
  label = "Home";
  public_endpoint = "203.0.113.7:51820";
  mesh_cidr = "100.64.0.0/24";
}

abbrev mint : String → MintInput
mint text = record {
  label = "t";
  user_id = "u";
  plaintext = text;
  prefix = "polar_wg_";
  expires_at = none;
  now = 10;
}

abbrev request : String → ℕ → TokenRequest
request role hub_id = record { role = role; ttl_days = 0; hub_id = hub_id; hub = wanted_hub }

abbrev hub_call : RegisterInput
hub_call = record {
  token = "hubtoken";
  pubkey = "hubkey";
  hostname = "gw";
  host_id = "";
  os = "linux";
  arch = "amd64";
  agent_ver = "1";
  lan_addrs = [];
  isolated = false;
  wg_listen_port = 51820;
  site_slug = "";
  public_ip = "203.0.113.7";
}

abbrev hub_token : Token
hub_token = record (token 1 "#hubtoken" Role.hub) {
  public_endpoint = some "203.0.113.7:51820";
  mesh_cidr_pref = some "100.64.0.0/24";
}

abbrev fresh_hub : Hub
fresh_hub = record home { pubkey = ""; bound_device_id = none }

abbrev t1 : Db
t1 = record blank { hubs = fresh_hub ∷ []; tokens = hub_token ∷ []; next_hub = 2; next_token = 2 }

abbrev first_call : Call
first_call = record { now = 10; device_id = "dev_1" }

abbrev t2 : Db
t2 = record t1 {
  hubs = home ∷ [];
  sites = hub_site ∷ [];
  tokens = record hub_token { consumed_at = some 10; consumed_by_device_id = some 1 } ∷ [];
  devices = hub_device ∷ [];
  next_site = 2;
  next_device = 2;
}

abbrev gateway_row : Allocated
gateway_row = record {
  device = record hub_device { hub_slug = "home"; site_slug = "home:hub" };
  hub = home;
  role = Role.hub;
  plaintext_token = "hubtoken";
  token_expires_at = none;
}

abbrev t3 : Db
t3 = record t2 {
  tokens = record hub_token { consumed_at = some 10; consumed_by_device_id = some 1 } ∷ secret ∷ [];
  next_token = 3;
}

is_wide : (db : Db) → IsWide world wanted_hub db
unfolding wanted_mesh
is_wide db mesh n wanted parsed =
    let same : "100.64.0.0/24" ≡ mesh = ok_inj "100.64.0.0/24" mesh wanted in
    let net : home_mesh ≡ n =
      ok_inj home_mesh n (sym home_parsed ∙ ap (parse_mesh_cidr world) same ∙ parsed) in
    subst (λ (x : MeshNet). x.ones ≤ 24) net (omega arith)

hub_made : (token_create world (request "hub" 0) (mint "hubtoken") blank).0 ≡ t1
unfolding token_create create_token_for_hub token_for_hub hub_for_token wanted_mesh hub_of_slug
    make_hub validate_mesh_cidr_disjoint create_hub hub_wg_ip_from_cidr get_hub_by_slug insert_token
    list_hubs trim_space trim_right trim_left is_space parse_mesh_cidr parse_cidr parse_cidr4 cut
    parse_ipv4 split parse_octet parse_decimal leading_zero device_ip ipv4_text itoa net_text
hub_made = refl

hub_bound : do_allocate world first_call hub_call t1 ≡ ok (t2, gateway_row)
unfolding do_allocate claim lookup_unused_token get_hub_by_id lookup_device_by_pubkey
    bind_hub_device get_or_create_site lookup_site_by_slug_in_hub insert_site insert_device
    update_hub_bind consume_token get_device_by_id hub_device_ip hub_device_endpoint host_port
    hub_wg_ip_from_cidr trim_space trim_right trim_left is_space parse_mesh_cidr parse_cidr
    parse_cidr4 cut parse_ipv4 split parse_octet parse_decimal leading_zero device_ip ipv4_text itoa
    net_text
hub_bound = refl

device_minted : (token_create world (request "device" 1) (mint "secret") t2).0 ≡ t3
unfolding token_create create_token_for_device get_hub_by_id insert_token trim_space trim_right
    trim_left is_space
device_minted = refl

path1 : Reachable world t1
path1 =
    subst (Reachable world) hub_made
      (next first (token_created (request "hub" 0) (mint "hubtoken") (is_wide blank)))

path2 : Reachable world t2
path2 = next path1 (registered first_call hub_call (t2, gateway_row) refl hub_bound)

path3 : Reachable world t3
path3 =
    subst (Reachable world) device_minted
      (next path2 (token_created (request "device" 1) (mint "secret") (is_wide t2)))

Reachable-IsSound_example : IsSound world t3
Reachable-IsSound_example = Reachable-IsSound world t3 path3

laptop-IsFirstCall : IsFirstCall world call laptop secret home t3
unfolding lookup_unused_token lookup_device_by_pubkey get_hub_by_id trim_space trim_right trim_left
    is_space
laptop-IsFirstCall = record {
  row = refl;
  role = refl;
  unused = refl;
  to_hub = refl;
  hub_row = refl;
  unseen = refl;
  fresh = refl;
}

reachable_registration-Ends_example :
    Ends
      (Joined world call laptop secret home t3)
      (λ e. device_refusal e ≡ true)
      (do_allocate world call laptop t3)
reachable_registration-Ends_example =
    reachable_registration-Ends world call laptop secret home t3 path3 laptop-IsFirstCall

with_site_1 :
    resolve_or_create_site world 1 laptop 20 t3
    ≡ ok (record t3 { sites = hub_site ∷ site_1 ∷ []; next_site = 3 }, site_1)
unfolding resolve_or_create_site lookup_site_by_auto_key_in_hub create_site insert_site auto_slug
    current_hub_slug get_hub_by_id pick_free_s_index_in_hub first_free used_s_indexes
    lan_cidr_network first_lan_cidr net_text ipv4_text itoa trim_space trim_right trim_left is_space
    parse_mesh_cidr parse_cidr parse_cidr4 cut parse_ipv4 split parse_octet parse_decimal
    leading_zero
with_site_1 = refl

room_left :
    length (used_d_indexes (record t3 { sites = hub_site ∷ site_1 ∷ []; next_site = 3 }) 1) < 253
unfolding used_d_indexes
room_left = omega arith

home_up : configured home ≡ true
unfolding configured trim_space trim_right trim_left is_space
home_up = refl

reachable_registration_succeeds_example :
    (r : Db × Allocated) × (do_allocate world call laptop t3 ≡ ok r)
    × Joined world call laptop secret home t3 r
reachable_registration_succeeds_example =
    reachable_registration_succeeds world call laptop secret home t3 path3 laptop-IsFirstCall
      (record t3 { sites = hub_site ∷ site_1 ∷ []; next_site = 3 }, site_1) home_up with_site_1
      room_left

-- The first transaction is ended by PostgreSQL, the second goes through.
abbrev unlucky : Attempts
unlucky = record {
  snapshot = λ n. t3;
  fault = λ n. if n == 0 then some could_not_serialize else none;
}

laptop_key : validate_pubkey laptop.pubkey ≡ ok tt
unfolding validate_pubkey byte_len trim_space trim_right trim_left is_space
laptop_key = refl

laptop_text : is_empty (trim_space laptop.token) ≡ false
unfolding trim_space trim_right trim_left is_space
laptop_text = refl

unchanged : sent world call unlucky laptop ≡ laptop
unfolding listen_port
unchanged = refl

allocate_wg_device-Ends_example :
    Ends
      (λ r.
        Reachable world r.0
        × (validate_pubkey laptop.pubkey ≡ ok tt)
        × (is_empty (trim_space laptop.token) ≡ false)
        × LastTried world call unlucky laptop (ok r))
      (λ e. IsRefused world call unlucky laptop e ⊎ LastTried world call unlucky laptop (err e))
      (allocate_wg_device world call unlucky laptop)
allocate_wg_device-Ends_example =
    allocate_wg_device-Ends world call unlucky laptop (λ n below. path3) (λ n below. refl)

sent-IsFirstCall : IsFirstCall world call (sent world call unlucky laptop) secret home t3
sent-IsFirstCall =
    subst (λ (x : RegisterInput). IsFirstCall world call x secret home t3) (sym unchanged)
      laptop-IsFirstCall

site_again :
    resolve_or_create_site world 1 (sent world call unlucky laptop) 20 t3
    ≡ ok (record t3 { sites = hub_site ∷ site_1 ∷ []; next_site = 3 }, site_1)
site_again = rw unchanged with_site_1

retried_registration_succeeds_example :
    (r : Db × Allocated) × (allocate_wg_device world call unlucky laptop ≡ ok r)
    × Joined world call (sent world call unlucky laptop) secret home t3 r
    × Reachable world r.0
retried_registration_succeeds_example =
    retried_registration_succeeds world call unlucky laptop secret home
      (record t3 { sites = hub_site ∷ site_1 ∷ []; next_site = 3 }, site_1) refl refl laptop_key
      laptop_text path3 sent-IsFirstCall home_up site_again room_left
