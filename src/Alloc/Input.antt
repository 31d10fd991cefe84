-- ===== src/Alloc/Input.antt =====
-- wgRegisterInput and wgAllocateResult of internal/wg/alloc.go.
use polar_wg.Base.{ℕ, String, Bool, Option, List}
use polar_wg.Net.{LanAddr}
use polar_wg.Store.Rows.{Hub, Device, Role}

pub record RegisterInput : Type 0 where
  pub token : String
  pub pubkey : String
  pub hostname : String
  pub host_id : String
  pub os : String
  pub arch : String
  pub agent_ver : String
  pub lan_addrs : List LanAddr
  pub isolated : Bool
  pub wg_listen_port : ℕ
  pub site_slug : String
  pub public_ip : String

pub record Allocated : Type 0 where
  pub device : Device
  pub hub : Hub
  pub role : Role
  pub plaintext_token : String
  pub token_expires_at : Option ℕ

-- What a call takes from its surroundings: time.Now() and the random id of newWGDeviceID().
pub record Call : Type 0 where
  pub now : ℕ
  pub device_id : String
