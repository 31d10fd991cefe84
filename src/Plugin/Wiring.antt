-- ===== src/Plugin/Wiring.antt =====
-- Who reaches the operator's handlers, and what a failed start leaves behind.
use mathlib.Core.Path.{ap, sym, subst}
use polar_wg.Auth.Gate.{require_admin_iff, IsGranted}
use polar_wg.Auth.{require_admin, Identity}
use polar_wg.Base.{
  ==_iff, ◌==◌, ℕ, [], ◌∷◌, trim_space, any, ◌||◌, not, arith, Bool-cases, is_empty, false, true,
  Option, String, Bool, ◌≡◌, List, All, if◌then◌else◌, none, some, inl, inr, refl,
}
use polar_wg.Errors.{Result, ok_inj, >>=-eq-ok, err, ok}
use polar_wg.Plugin.{
  named, with_dock, Config, new_plugin, route_table, through_gate, Credentials, Registered, Outside,
  Handler, Router, Dock, dispatch, admin_hub_list, admin_hub_update, admin_hub_delete,
  admin_hub_reset_bind, admin_hub_link_list, admin_hub_link_create, admin_hub_link_delete,
  admin_token_list, admin_token_create, admin_token_revoke, admin_device_list, admin_device_update,
  admin_device_remove, admin_site_list, admin_hub_status, admin_bundle_upload, admin_bundle_list,
  admin_bundle_set_latest, admin_bundle_delete,
}

-- The handlers that read or change hubs, links, tokens, devices and bundles as the operator does.
abbrev pub is_operator : Handler → Bool
is_operator admin_hub_list = true
is_operator admin_hub_update = true
is_operator admin_hub_delete = true
is_operator admin_hub_reset_bind = true
is_operator admin_hub_link_list = true
is_operator admin_hub_link_create = true
is_operator admin_hub_link_delete = true
is_operator admin_token_list = true
is_operator admin_token_create = true
is_operator admin_token_revoke = true
is_operator admin_device_list = true
is_operator admin_device_update = true
is_operator admin_device_remove = true
is_operator admin_site_list = true
is_operator admin_hub_status = true
is_operator admin_bundle_upload = true
is_operator admin_bundle_list = true
is_operator admin_bundle_set_latest = true
is_operator admin_bundle_delete = true
is_operator _ = false

-- gin runs only what is registered: the property of each of these routes is that of the one it takes.
abbrev pub IsRouter : Router → Type 0
IsRouter router =
    (p : Registered → Bool) (table : List Registered)
    → All (λ r. p r ≡ true) table
    → (verb path : String) (r : Registered) → router table verb path ≡ some r
    → p r ≡ true

abbrev gates_operator : Registered → Bool
gates_operator r = not (is_operator r.handler) || r.gated

All-tested :
    (p : Registered → Bool) (table : List Registered)
    → any (λ r. not (p r)) table ≡ false
    → All (λ r. p r ≡ true) table
All-tested p [] e = tt
All-tested p (r ∷ table) e = (ground arith, All-tested p table (ground arith))

route_table_gated : All (λ r. gates_operator r ≡ true) route_table
unfolding route_table
route_table_gated = All-tested gates_operator route_table refl

through_gate-IsGranted :
    (dock : Dock) (c : Credentials) (o : Option Registered) (h : Handler)
    → ((r : Registered) → o ≡ some r → gates_operator r ≡ true)
    → through_gate dock c o ≡ ok h
    → is_operator h ≡ true
    → (who : Identity) × IsGranted dock c who
through_gate-IsGranted dock c none h gates e op = cc
through_gate-IsGranted dock c (some r) h gates e op = elim (Bool-cases r.gated) [
  | inl g ↦
      let (who, passed, rest) =
        >>=-eq-ok (require_admin dock c) (λ who. ok r.handler) h (rw g at e) in
      (who, (require_admin_iff dock c who).0 passed)
  | inr g ↦
      let same : r.handler ≡ h = ok_inj r.handler h (rw g at e) in
      let operator : is_operator r.handler ≡ true =
        subst (λ k. is_operator k ≡ true) (sym same) op in
      absurd (ground (arith, gates r refl, operator))
]

-- Where the router takes a registered route, a request that reaches one of the operator's
-- handlers has a token, the dock service verifies it as an identity whose role is admin in
-- whatever case, and the access of its workspace is enabled.
pub operator_needs_grant :
    (router : Router) (dock : Dock) (c : Credentials) (verb path : String) (h : Handler)
    → IsRouter router
    → dispatch router dock c verb path ≡ ok h
    → is_operator h ≡ true
    → (who : Identity) × IsGranted dock c who
unfolding dispatch
operator_needs_grant router dock c verb path h sound e op =
    through_gate-IsGranted dock c (router route_table verb path) h
      (sound gates_operator route_table route_table_gated verb path) e op

-- What a start leaves: an error with the pool closed, or a plugin with a name, where the database
-- has answered and dock has answered 200.
abbrev IsClean : Option ℕ → Bool → Result Config → Bool → Type 0
IsClean dock_status answers (err e) pool_open = pool_open ≡ false
IsClean dock_status answers (ok c) pool_open =
    (pool_open ≡ true)
    × (is_empty c.plugin_name ≡ false)
    × (dock_status ≡ some 200)
    × (answers ≡ true)

name_or_wg : (s : String) → is_empty (if is_empty s then "wg" else s) ≡ false
name_or_wg String.[] = refl
name_or_wg (String.◌∷◌ c s) = refl

with_dock-IsClean :
    (cfg : Config) (d : Option ℕ)
    → IsClean d true (with_dock (named cfg) d).plugin (with_dock (named cfg) d).pool_open
with_dock-IsClean cfg none = refl
with_dock-IsClean cfg (some status) = elim (Bool-cases (status == 200)) [
  | inl f ↦
      rw f (refl, name_or_wg (trim_space cfg.plugin_name), ap some ((==_iff status 200).0 f), refl)
  | inr f ↦ rw f refl
]

-- However the start of the plugin ends, it leaves no open pool behind an error, and a plugin that it
-- makes has a name, a database that has answered and a dock that has answered 200.
new_plugin-IsClean :
    (cfg : Config) (o : Outside)
    → IsClean o.dock_status o.database_answers
        (new_plugin cfg o).plugin
        (new_plugin cfg o).pool_open
unfolding new_plugin
new_plugin-IsClean cfg o = elim (Bool-cases (is_empty (trim_space cfg.db_dsn))) [
  | inl e ↦ rw e refl
  | inr e ↦ elim (Bool-cases (is_empty (trim_space cfg.dock_base))) [
    | inl f ↦ rw (e, f) refl
    | inr f ↦ elim (Bool-cases (is_empty (trim_space cfg.plugin_token))) [
      | inl g ↦ rw (e, f, g) refl
      | inr g ↦ elim (Bool-cases o.opens) [
        | inr h ↦ rw (e, f, g, h) refl
        | inl h ↦ elim (Bool-cases o.database_answers) [
          | inr k ↦ rw (e, f, g, h, k) refl
          | inl k ↦ rw (e, f, g, h, k) (with_dock-IsClean cfg o.dock_status)
        ]
      ]
    ]
  ]
]
