-- ===== src/Install.antt =====
-- The installer that is served: `wgServerBaseURL` and `handleWGInstallScript` of
-- internal/wg/handlers.go, `renderWGJoinLinuxScript` and the values of `renderWGInstallScript` of
-- internal/wg/install_script.go. The script for Linux is an argument; the other one is the template
-- with the values that are filled in.
use polar_wg.Store.Hubs.{list_hubs}
use Prim.Native.Char.{code}
use polar_wg.Bundles.{norm_os, get_latest_bundle_for, req_os_arch, Bundle, Catalog}
use polar_wg.Store.Rows.{Hub, Db}
use polar_wg.Base.{
  ◌==◌, [], str_eq, ◌∷◌, not, none, append, trim_space, Bool, some, is_empty, String, List, Option,
  if◌then◌else◌,
}
use polar_wg.Errors.{no_server_line, ok, or_fail, server_required, require, Result, ◌>>=◌, ◌>>◌}

-- What a request says of the server's address.
pub record Origin : Type 0 where
  pub forwarded_proto : String
  pub forwarded_host : String
  pub tls : Bool
  pub host : String

unfoldable pub server_base_url : Origin → String
server_base_url o =
    let proto = trim_space o.forwarded_proto in
    let forwarded = trim_space o.forwarded_host in
    append (if is_empty proto then (if o.tls then "https" else "http") else proto)
      (append "://" (if is_empty forwarded then o.host else forwarded))

-- strings.HasPrefix(s, p), with the text behind it.
unfoldable pub after_prefix : String → String → Option String
after_prefix String.[] s = some s
after_prefix (String.◌∷◌ c p) String.[] = none
after_prefix (String.◌∷◌ c p) (String.◌∷◌ d s) = if code c == code d then after_prefix p s else none

-- strings.Replace(s, old, new, 1), or nothing where the text does not contain the old part.
unfoldable pub replace_first : String → String → String → Option String
replace_first old new String.[] = elim (after_prefix old "") [
  | none ↦ none
  | some rest ↦ some (append new rest)
]
replace_first old new (String.◌∷◌ c s) = elim (after_prefix old (String.◌∷◌ c s)) [
  | some rest ↦ some (append new rest)
  | none ↦ elim (replace_first old new s) [ none ↦ none | some t ↦ some (String.◌∷◌ c t) ]
]

-- joinLinuxServerDefault
abbrev pub placeholder_line : String
placeholder_line = "SERVER=\"__SERVER_PLACEHOLDER__\""

unfoldable pub render_join_linux_script : String → String → Result String
render_join_linux_script script server = do
  require (not (is_empty (trim_space server))) server_required
  or_fail (replace_first placeholder_line (append "SERVER=\"" (append server "\"")) script)
      no_server_line

-- wgInstallScriptInput
pub record ScriptInput : Type 0 where
  pub server : String
  pub bundle_version : String
  pub mesh_cidr : String
  pub os : String
  pub arch : String

abbrev or_default : String → String → String
or_default default s = if is_empty (trim_space s) then default else s

-- The values that renderWGInstallScript fills in.
unfoldable pub script_values : ScriptInput → Result ScriptInput
script_values i = do
  require (not (is_empty (trim_space i.server))) server_required
  ok (record i {
    bundle_version = or_default "latest" i.bundle_version;
    mesh_cidr = or_default "100.64.0.0/10" i.mesh_cidr;
  })

pub data Script : Type 0 where
  linux_script : String → Script
  filled : ScriptInput → Script

abbrev version_of : Option Bundle → String
version_of none = "latest"
version_of (some b) = b.version

abbrev first_mesh : List Hub → String
first_mesh [] = "100.64.0.0/24"
first_mesh (h ∷ hubs) = h.mesh_cidr

-- The values for a request that is not Linux's.
unfoldable pub install_input : Db → Catalog → Origin → String → String → String → ScriptInput
install_input db k o os arch version =
    let target = req_os_arch os arch in
    let v = trim_space version in
    record {
      server = server_base_url o;
      bundle_version =
          if is_empty v then version_of (get_latest_bundle_for k target.0 target.1) else v;
      mesh_cidr = first_mesh (list_hubs db);
      os = if is_empty os then "" else target.0;
      arch = target.1;
    }

-- handleWGInstallScript
unfoldable pub install_script :
    String → Db → Catalog → Origin → String → String → String → Result Script
install_script script db k o os arch version =
    if str_eq (norm_os os) "linux"
    then (render_join_linux_script script (server_base_url o) >>= λ text. ok (linux_script text))
    else (script_values (install_input db k o os arch version) >>= λ i. ok (filled i))
