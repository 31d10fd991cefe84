-- ===== src/Store/Rows.antt =====
-- The rows of the tables: WGHub, WGPolicy, DNSPolicy, ProxyPolicy, WGHubLink, WGSite, WGToken,
-- WGDevice and WGHeartbeatRecord of internal/wg/store.go.
use polar_wg.Base.{
  ℕ, String, Bool, Option, none, List, is_empty, not, trim_space, true, false, some,
}
use polar_wg.Net.{LanAddr}

pub record DnsPolicy : Type 0 where
  pub servers : List String
  pub match_domains : List String
  pub search_domains : List String
  pub mode : String
  pub doh_url : String

pub record ProxyPolicy : Type 0 where
  pub http : String
  pub https : String
  pub pac_url : String
  pub match_domains : List String
  pub bypass : List String
  pub exclude_simple : Bool

pub record Policy : Type 0 where
  pub dns : Option DnsPolicy
  pub proxy : Option ProxyPolicy

pub record Hub : Type 0 where
  pub id : ℕ
  pub slug : String
  pub label : String
  pub pubkey : String
  pub endpoint : String
  pub wg_ip : String
  pub mesh_cidr : String
  pub keepalive_sec : ℕ
  pub refresh_sec : ℕ
  pub bound_device_id : Option ℕ
  pub advertised_routes : List String
  pub policy : Option Policy
  pub created_at : ℕ
  pub updated_at : ℕ

-- (h *WGHub) Configured
unfoldable pub configured : Hub → Bool
configured h = not (is_empty (trim_space h.pubkey))

pub record HubLink : Type 0 where
  pub id : ℕ
  pub hub_a_id : ℕ
  pub hub_b_id : ℕ
  pub created_at : ℕ

pub record Site : Type 0 where
  pub id : ℕ
  pub hub_id : ℕ
  pub slug : String
  pub s_index : ℕ
  pub label : String
  pub public_ip : String
  pub lan_cidr : String
  pub created_at : ℕ

pub data Role : Type 0 where
  hub device : Role

-- The plaintext is shown once and never stored; the table keeps its hash.
pub record Token : Type 0 where
  pub id : ℕ
  pub label : String
  pub token_hash : String
  pub prefix : String
  pub role : Role
  pub hub_id : Option ℕ
  pub public_endpoint : Option String
  pub mesh_cidr_pref : Option String
  pub expires_at : Option ℕ
  pub consumed_at : Option ℕ
  pub consumed_by_device_id : Option ℕ
  pub revoked_at : Option ℕ
  pub created_at : ℕ
  pub created_by_user_id : String

-- `site_slug` and `hub_slug` are no columns: a response carries them.
pub record Device : Type 0 where
  pub id : ℕ
  pub device_id : String
  pub hub_id : ℕ
  pub site_id : ℕ
  pub d_index : ℕ
  pub device_ip : String
  pub pubkey : String
  pub hostname : String
  pub host_id : String
  pub os : String
  pub arch : String
  pub agent_ver : String
  pub wg_listen_port : ℕ
  pub lan_addrs : List LanAddr
  pub wg_endpoint : String
  pub token_hash : String
  pub token_expires_at : Option ℕ
  pub egress_hub_id : Option ℕ
  pub isolated : Bool
  pub created_at : ℕ
  pub last_seen_at : Option ℕ
  pub removed_at : Option ℕ
  pub site_slug : String
  pub hub_slug : String

pub record Heartbeat : Type 0 where
  pub device_id : ℕ
  pub rx_bytes : Option ℕ
  pub tx_bytes : Option ℕ
  pub last_handshake_sec : Option ℕ
  pub wg_endpoint : String
  pub lan_addrs : List LanAddr
  pub received_at : ℕ

-- The tables, and the next value of each BIGSERIAL.
pub record Db : Type 0 where
  pub hubs : List Hub
  pub links : List HubLink
  pub sites : List Site
  pub tokens : List Token
  pub devices : List Device
  pub heartbeats : List Heartbeat
  pub next_hub : ℕ
  pub next_link : ℕ
  pub next_site : ℕ
  pub next_token : ℕ
  pub next_device : ℕ

-- removed_at IS NULL
abbrev pub is_live : Device → Bool
is_live d = elim d.removed_at [ none ↦ true | some t ↦ false ]

-- The later of two optional marks wins only where there is none yet: COALESCE(old, new).
abbrev pub coalesce : Option ℕ → ℕ → Option ℕ
coalesce none new = some new
coalesce (some old) new = some old
