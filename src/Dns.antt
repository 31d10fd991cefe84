-- ===== src/Dns.antt =====
-- The name service of a hub: `sanitizeHostname` and `handleWGDNSZone` of internal/wg/dns_handlers.go.
pub mod Labels
use polar_wg.Routing.Peers.{spokes_rev}
use polar_wg.Store.Devices.{list_devices_in_hub}
use polar_wg.Store.Hubs.{get_hub_by_id}
use Prim.Native.Char.{code}
use polar_wg.Store.Rows.{Device, Db}
use polar_wg.Errors.{ok, cross_hub_query, require, no_rows, or_fail, Result, ◌>>=◌, ◌>>◌}
use polar_wg.Base.{
  length, ◌++◌, to_lower, false, is_digit, itoa, [], not, ◌&&◌, trim, append, trim_space, ◌||◌,
  str_eq, ◌∷◌, prefix, any, ◌==◌, leb, is_empty, String, ℕ, List, Bool, if◌then◌else◌,
}

abbrev pub is_label_char : ℕ → Bool
is_label_char c = (leb b'a' c && leb c b'z') || (is_digit c || (c == b'.' || c == b'-'))

-- validHostnameRE.ReplaceAllString(s, "-"): a run of other characters becomes one dash. The Boolean
-- says that the run has begun.
unfoldable pub squash : Bool → String → String
squash in_run String.[] = String.[]
squash in_run (String.◌∷◌ c s) =
    let valid = is_label_char (code c) in
    let rest = squash (not valid) s in
    if valid then String.◌∷◌ c rest else if in_run then rest else append "-" rest

abbrev pub is_edge : ℕ → Bool
is_edge c = c == b'-' || c == b'.'

unfoldable pub sanitize_hostname : String → String
sanitize_hostname raw = prefix 63 (trim is_edge (squash false (to_lower (trim_space raw))))

pub record DnsEntry : Type 0 where
  pub hostname : String
  pub wg_ip : String
  pub device_id : String

-- The name of a row, before it is compared with those that are taken.
unfoldable pub host_label : Device → String
host_label d =
    let s = sanitize_hostname d.hostname in if is_empty s then append "dev-" (itoa d.id) else s

unfoldable pub unique_label : List String → Device → String
unique_label seen d =
    let n = host_label d in if any (str_eq n) seen then append n (append "-" (itoa d.id)) else n

unfoldable pub dns_entries : List String → List Device → List DnsEntry
dns_entries seen [] = []
dns_entries seen (d ∷ devices) =
    let n = unique_label seen d in
    record { hostname = n; wg_ip = d.device_ip; device_id = d.device_id }
    ∷ dns_entries (n ∷ seen) devices

pub record Zone : Type 0 where
  pub hub_slug : String
  pub suffix : String
  pub entries : List DnsEntry
  -- the latest time and the number of entries, which the answer prints with a dash between them
  pub rev : ℕ × ℕ
  pub refresh_sec : ℕ

-- handleWGDNSZone, after the bearer is checked: the caller is added to the devices of its hub.
unfoldable pub dns_zone : Db → Device → String → Result Zone
dns_zone db d slug = do
  let requested = trim_space slug
  h ← or_fail (get_hub_by_id db d.hub_id) no_rows
  require (is_empty requested || str_eq requested h.slug) cross_hub_query
  let devices = list_devices_in_hub db h.id 0 ++ d ∷ []
  ok record {
    hub_slug = h.slug;
    suffix = append h.slug ".wg";
    entries = dns_entries [] devices;
    rev = (spokes_rev 0 devices, length devices);
    refresh_sec = h.refresh_sec;
  }
