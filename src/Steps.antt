-- ===== src/Steps.antt =====
-- The control plane as a machine: a step is one request or one turn of the sweep, a state is the
-- database.
pub mod Frame
pub mod Statements
pub mod Registration
pub mod Hubs
pub mod Requests
pub mod Services
pub mod Updates
pub mod Machine
pub mod Progress
pub mod Calls
pub mod Sweeper
use polar_wg.Alloc.{hub_device_ip}
use polar_wg.Alloc.Addressing.{IsAddressed}
use polar_wg.Mint.Grown.{IsNumbered}
use polar_wg.Base.{Pairs, ◌≢◌, All, ◌≡◌, ◌≤◌, ℕ, String}
use polar_wg.Errors.{ok}
use polar_wg.Net.{World, MeshNet, parse_mesh_cidr, device_ip}
use polar_wg.Store.Rows.{Hub, Db}

-- The address of a hub's own device is the first one of its network.
pub record HasOwnAddress (w : World) (h : Hub) : Type 0 where
  pub mesh : MeshNet
  pub parsed : parse_mesh_cidr w h.mesh_cidr ≡ ok mesh
  pub own : h.wg_ip ≡ device_ip mesh 1

abbrev pub HaveTwoIds : Hub → Hub → Type 0
HaveTwoIds a b = a.id ≢ b.id

pub record IsSound (w : World) (db : Db) : Type 0 where
  pub addressed : IsAddressed w db
  pub numbered : IsNumbered db
  pub counted : 1 ≤ db.next_hub
  pub addresses : All (HasOwnAddress w) db.hubs
  pub distinct : Pairs HaveTwoIds db.hubs
