-- ===== src/Examples/Access.antt =====
-- A device that authenticates, refreshes its token, leaves, or is swept away, and tokens for hubs.
use polar_wg.Gc.Overflow.{overflowing_ttl_empties}
use polar_wg.Status.{stale_device_ttl}
use polar_wg.Store.Tokens.{is_past}
use polar_wg.Mint.Suggest.{suggest_free_mesh_cidr_free, reissue_without_mesh_refused}
use polar_wg.Gc.Sweep.{sweep-fresh}
use polar_wg.Errors.{ok}
use polar_wg.Gc.{cutoff_of, is_stale, sweep}
use polar_wg.Store.Rows.{Device, is_live, Hub, Db}
use polar_wg.Api.Leave.{authenticate_sound, leave_then_refused, token_refresh_retires, IsAlone}
use polar_wg.Examples.Data.{laptop_row, hub_device, db1, world, unbound, empty_db}
use polar_wg.Mint.{MintInput, hub_for_token, HubInput}
use polar_wg.Store.Devices.{update_device_token_hash, mark_device_removed, get_device_by_token_hash}
use polar_wg.Store.Hubs.{
  suggest_free_mesh_cidr, mesh_candidate, get_hub_by_slug, get_hub_by_id, first_candidate,
}
use polar_wg.Api.{token_refresh, leave, clear_if_bound, authenticate}
use polar_wg.Base.{
  select, true, is_some_of, [], map, str_eq_iff, false, str_eq, refl, ◌∷◌, some, arith, any, Option,
  ◌<◌, ◌≡◌, none, ◌≢◌, All, ℕ, trim_space, trim_right, trim_left, itoa, is_space,
}

known : authenticate world "secret" "dev_2" 30 db1 ≡ ok laptop_row
unfolding authenticate get_device_by_token_hash trim_space trim_right trim_left is_space
known = refl

authenticate_sound_example :
    (get_device_by_token_hash db1 (world.hash "secret") ≡ some laptop_row)
    × (laptop_row.token_hash ≡ world.hash "secret")
    × (is_live laptop_row ≡ true)
    × (laptop_row.device_id ≡ trim_space "dev_2")
    × (is_past laptop_row.token_expires_at 30 ≡ false)
authenticate_sound_example = authenticate_sound world "secret" "dev_2" 30 db1 laptop_row known

alone : IsAlone world "secret" 2 db1
alone = ((λ e. cc), ((λ e. refl), tt))

abbrev left : Db
left = record db1 { devices = hub_device ∷ record laptop_row { removed_at = some 30 } ∷ [] }

leaves : leave world "secret" "dev_2" 30 db1 ≡ ok left
unfolding leave mark_device_removed clear_if_bound get_hub_by_id authenticate
    get_device_by_token_hash trim_space trim_right trim_left is_space
leaves = refl

leave_then_refused_example : authenticate world "secret" "dev_2" 40 left ≢ ok laptop_row
leave_then_refused_example =
    leave_then_refused world "secret" "dev_2" "dev_2" 30 40 db1 left laptop_row laptop_row known
      alone leaves

abbrev renewed : Db × Option ℕ
renewed =
    (record db1 { devices = hub_device ∷ record laptop_row { token_hash = "#fresh" } ∷ [] }, none)

renews : token_refresh world "secret" "dev_2" "fresh" 30 db1 ≡ ok renewed
unfolding token_refresh update_device_token_hash authenticate get_device_by_token_hash trim_space
    trim_right trim_left is_space
renews = refl

other_hash : world.hash "fresh" ≢ world.hash "secret"
other_hash e = ground (arith, str_eq_iff (world.hash "fresh") (world.hash "secret"), e)

token_refresh_retires_example : authenticate world "secret" "dev_2" 40 renewed.0 ≢ ok laptop_row
token_refresh_retires_example =
    token_refresh_retires world "secret" "dev_2" "fresh" "dev_2" 30 40 db1 laptop_row laptop_row
      renewed known alone other_hash renews

sweep-fresh_example :
    All (λ x. is_stale (cutoff_of 100 50) x ≡ false) (sweep 100 50 db1).0.devices
    × All
        (λ v.
          All (λ (h : Hub). is_some_of h.bound_device_id v.id ≡ false) (sweep 100 50 db1).0.hubs)
        (select (is_stale (cutoff_of 100 50)) db1.devices)
sweep-fresh_example = sweep-fresh 100 50 db1

suggested : suggest_free_mesh_cidr db1 ≡ ok "100.64.1.0/24"
unfolding suggest_free_mesh_cidr first_candidate mesh_candidate itoa trim_space trim_right trim_left
    is_space
suggested = refl

suggest_free_mesh_cidr_free_example :
    (k : ℕ) × (k < 16384)
    × ("100.64.1.0/24" ≡ mesh_candidate k)
    × (any (str_eq "100.64.1.0/24") (map (λ (h : Hub). trim_space h.mesh_cidr) db1.hubs) ≡ false)
suggest_free_mesh_cidr_free_example = suggest_free_mesh_cidr_free db1 "100.64.1.0/24" suggested

abbrev mint : MintInput
mint = record {
  label = "t";
  user_id = "u";
  plaintext = "new";
  prefix = "polar_wg_";
  expires_at = none;
  now = 30;
}

abbrev again_home : HubInput
again_home = record {
  slug = "home";
  label = "Home";
  public_endpoint = "203.0.113.7:51820";
  mesh_cidr = "";
}

home_slug : get_hub_by_slug empty_db (trim_space "home") ≡ some unbound
unfolding get_hub_by_slug trim_space trim_right trim_left is_space
home_slug = refl

plain : trim_space unbound.mesh_cidr ≡ unbound.mesh_cidr
unfolding trim_space trim_right trim_left is_space
plain = refl

reissue_without_mesh_refused_example :
    hub_for_token world mint again_home empty_db ≢ ok ((empty_db, unbound), "100.64.0.0/24")
reissue_without_mesh_refused_example =
    reissue_without_mesh_refused world mint again_home empty_db unbound
      ((empty_db, unbound), "100.64.0.0/24") home_slug plain refl

overflowing_ttl_empties_example :
    All
      (λ (d : Device). is_live d ≡ false)
      (sweep 100 (stale_device_ttl (itoa 3000000)) db1).0.devices
overflowing_ttl_empties_example =
    overflowing_ttl_empties 100 3000000 db1 (omega arith) (omega arith) (omega arith)
      (omega arith, (omega arith, tt))
