-- ===== src/Selfpoll.antt =====
-- The poll of the hub's own interface: internal/wg/hub_local_self_poll.go, the search for the tools in
-- internal/wg/hub_local_wgctl.go, and `collectIfaceNetInfo` of internal/wg/hub_local_routes.go. The
-- machine is a parameter: its variables, files, programs and interfaces.
pub mod Routes
pub mod Names
use polar_wg.Wgctl.Fields.{Scaled}
use polar_wg.Net.{ipv4_text, World}
use polar_wg.Status.{poll_interval}
use polar_wg.Wgctl.{CtlDump, parse_wgctl_show}
use polar_wg.Dump.{cons_some, Dump, parse_wg_show_dump, linux_routes, darwin_routes}
use polar_wg.Base.{
  itoa, split, false, ◌&&◌, Bool, trim_space, ◌∷◌, append, not, ℕ, is_empty, [], str_eq, String,
  List, Option, if◌then◌else◌, none, some, inl, inr, refl,
}
use polar_wg.Errors.{Result, err, ok}

-- An address of an interface: net.IPNet with its IPv4 form, if it has one, and the ones of its mask,
-- or another kind of address.
pub data Addr : Type 0 where
  ip_net : Option ℕ → ℕ → Addr
  other_addr : Addr

pub record Machine : Type 0 where
  -- os.Getenv
  pub getenv : String → String
  -- os.Stat without an error
  pub exists_file : String → Bool
  -- exec.LookPath
  pub look_path : String → Option String
  -- the output of a program that ends well, of its name and arguments
  pub output : String → List String → Option String
  -- net.InterfaceByName and its Addrs
  pub addrs_of : String → Option (List Addr)
  -- runtime.GOOS
  pub goos : String

pub data Flavor : Type 0 where
  wgctl wg : Flavor

-- hubLocalBackend; the parser, the arguments and sudo follow from the flavor.
pub record Backend : Type 0 where
  pub flavor : Flavor
  pub bin : String

abbrev first_file : (String → Bool) → List String → String
first_file exists_at [] = ""
first_file exists_at (p ∷ paths) =
    let rest = first_file exists_at paths in if exists_at p then p else rest

abbrev from_path : Machine → Option String → List String → String
from_path m (some p) paths = p
from_path m none paths = first_file m.exists_file paths

-- resolveWGCtlBin and resolveWGBin, of the variable, the tool and the usual places
unfoldable pub resolve_bin : Machine → String → String → List String → String
resolve_bin m variable tool paths =
    let v = trim_space (m.getenv variable) in
    if not (is_empty v) && m.exists_file v then v else from_path m (m.look_path tool) paths

unfoldable pub resolve_wgctl_bin : Machine → String
unfolding resolve_bin
resolve_wgctl_bin m =
    resolve_bin m "POLAR_WG_HUB_LOCAL_WGCTL_BIN" "wgctl"
      ("/usr/local/bin/wgctl" ∷ "/opt/homebrew/bin/wgctl" ∷ [])

unfoldable pub resolve_wg_bin : Machine → String
unfolding resolve_bin
resolve_wg_bin m =
    resolve_bin m "POLAR_WG_HUB_LOCAL_WG_BIN" "wg"
      ("/opt/homebrew/bin/wg" ∷ "/usr/local/bin/wg" ∷ "/usr/bin/wg" ∷ [])

-- pickHubLocalBackend
unfoldable pub pick_backend : Machine → Option Backend
unfolding resolve_wgctl_bin resolve_wg_bin
pick_backend m =
    if not (is_empty (resolve_wgctl_bin m))
    then some (record { flavor = wgctl; bin = resolve_wgctl_bin m })
    else if not (is_empty (resolve_wg_bin m))
    then some (record { flavor = wg; bin = resolve_wg_bin m })
    else none

-- hubLocalIfacePubKey
unfoldable pub iface_pub_key : Machine → String
iface_pub_key m = trim_space (m.getenv "POLAR_WG_HUB_LOCAL_POLL_PUBKEY")

-- What the loop is started with.
pub record Started : Type 0 where
  pub iface : String
  pub iface_public_key : String
  pub backend : Backend
  pub interval : ℕ

abbrev pub lacks_key : Flavor → String → Bool
lacks_key wgctl key = is_empty key
lacks_key wg key = false

abbrev pub with_backend : Machine → String → Option Backend → Option Started
with_backend m iface none = none
with_backend m iface (some b) =
    if lacks_key b.flavor (iface_pub_key m)
    then none
    else some (record {
      iface = iface;
      iface_public_key = iface_pub_key m;
      backend = b;
      interval = poll_interval (m.getenv "POLAR_WG_HUB_LOCAL_POLL_SEC");
    })

-- startHubLocalSelfPoll: what it starts, if it starts anything.
unfoldable pub start_self_poll : Machine → Option Started
unfolding pick_backend iface_pub_key poll_interval
start_self_poll m =
    let iface = trim_space (m.getenv "POLAR_WG_HUB_LOCAL_POLL_IFACE") in
    if is_empty iface then none else with_backend m iface (pick_backend m)

-- ifaceNetInfo
pub record NetInfo : Type 0 where
  pub addrs : List String
  pub routes : List String

abbrev addr_texts : List Addr → List String
addr_texts [] = []
addr_texts (ip_net (some ip) ones ∷ addrs) =
    append (ipv4_text ip) (append "/" (itoa ones)) ∷ addr_texts addrs
addr_texts (ip_net none ones ∷ addrs) = addr_texts addrs
addr_texts (other_addr ∷ addrs) = addr_texts addrs

abbrev texts_of : Option (List Addr) → List String
texts_of none = []
texts_of (some addrs) = addr_texts addrs

-- collectIfaceAddrs
unfoldable pub iface_addrs : Machine → String → List String
iface_addrs m iface = texts_of (m.addrs_of iface)

abbrev pub of_output : (List String → List String) → Option String → List String
of_output read none = []
of_output read (some out) = read (split b'\n' out)

-- collectIfaceRoutes
unfoldable pub iface_routes : World → Machine → String → List String
unfolding darwin_routes linux_routes
iface_routes w m iface =
    if str_eq m.goos "darwin"
    then of_output (darwin_routes w iface) (m.output "netstat" ("-rn" ∷ "-f" ∷ "inet" ∷ []))
    else if str_eq m.goos "linux"
    then of_output (linux_routes w) (m.output "ip" ("-4" ∷ "route" ∷ "show" ∷ "dev" ∷ iface ∷ []))
    else []

-- collectIfaceNetInfo
unfoldable pub iface_net : World → Machine → String → NetInfo
unfolding iface_addrs iface_routes
iface_net w m iface =
    if is_empty iface
    then record { addrs = []; routes = [] }
    else record { addrs = iface_addrs m iface; routes = iface_routes w m iface }

-- The data of a sample, of one of the two parsers.
pub data Report : Type 0 where
  of_dump : Dump → Report
  of_ctl : CtlDump → Report

-- The body that is pushed to dock.
pub record Push : Type 0 where
  pub iface : String
  pub iface_public_key : String
  pub report : Report
  pub iface_net : NetInfo

abbrev pub dump_report : Result Dump → Option (String × Report)
dump_report (err e) = none
dump_report (ok d) = some (d.iface_public_key, of_dump d)

abbrev pub ctl_report : Result CtlDump → Option (String × Report)
ctl_report (err e) = none
ctl_report (ok d) = some (d.iface_public_key, of_ctl d)

abbrev pub run_tool : Machine → Backend → String → Option String
run_tool m b iface = elim b.flavor [
  | wgctl ↦ m.output "sudo" ("-n" ∷ b.bin ∷ "show" ∷ iface ∷ [])
  | wg ↦ m.output b.bin ("show" ∷ iface ∷ "dump" ∷ [])
]

-- The parser of the backend.
abbrev pub read_tool : Scaled → ℕ → Flavor → String → String → String → Option (String × Report)
read_tool scaled now wgctl iface key out = ctl_report (parse_wgctl_show scaled now iface key out)
read_tool scaled now wg iface key out = dump_report (parse_wg_show_dump now iface out)

abbrev pub pushed : World → Machine → Started → Option (String × Report) → Option Push
pushed w m s none = none
pushed w m s (some (key, report)) = some (record {
  iface = s.iface;
  iface_public_key = key;
  report = report;
  iface_net = iface_net w m s.iface;
})

-- hubLocalSelfPollOnce up to the call of dock: what it pushes, if it pushes anything.
unfoldable pub self_poll_once : World → Scaled → Started → ℕ × Machine → Option Push
unfolding parse_wgctl_show parse_wg_show_dump iface_net
self_poll_once w scaled s (now, m) = elim (run_tool m s.backend s.iface) [
  | none ↦ none
  | some out ↦ pushed w m s (read_tool scaled now s.backend.flavor s.iface s.iface_public_key out)
]

-- hubLocalSelfPollLoop: the pushes of the rounds, the one at the start first.
unfoldable pub self_poll_loop : World → Scaled → Started → List (ℕ × Machine) → List Push
unfolding self_poll_once
self_poll_loop w scaled s [] = []
self_poll_loop w scaled s (round ∷ rounds) =
    cons_some (self_poll_once w scaled s round) (self_poll_loop w scaled s rounds)

-- The pushes of a plugin that is started on a machine.
unfoldable pub self_poll : World → Scaled → Machine → List (ℕ × Machine) → List Push
unfolding start_self_poll self_poll_loop
self_poll w scaled m rounds = elim (start_self_poll m) [
  | none ↦ []
  | some s ↦ self_poll_loop w scaled s rounds
]
