-- ===== src/Examples/Enrol.antt =====
-- Registrations on the sample database.
use polar_wg.Alloc.Single.{address_in_use_blocks_bind, token_enrols_one_key, refreshed}
use native.Mathlib.Decide.{ℕ_discrete}
use polar_wg.Errors.{ok_inj, ok}
use polar_wg.Alloc.Input.{Allocated}
use polar_wg.Alloc.Again.{register_again, IsRefreshed}
use polar_wg.Alloc.Joining.{allocate_device-Ends, device_refusal, Joined}
use polar_wg.Errors.Ends.{Ends-ok, Ends}
use polar_wg.Examples.Data.{
  unbound, laptop_row, enrolled, used, db1, secret, home_parsed, home, call, home_mesh, laptop,
  token, db0, hub_device, world,
}
use polar_wg.Alloc.Addressing.{hub_mesh, IsAddressed}
use polar_wg.Store.Hubs.{get_hub_by_id}
use polar_wg.Store.Devices.{live_where, lookup_device_by_pubkey, insert_device, get_device_by_id}
use polar_wg.Alloc.Index.{
  used_s_indexes, used_d_indexes, pick_free_s_index_in_hub, pick_free_d_index, first_free,
}
use polar_wg.Net.{
  MeshNet, parse_octet, parse_mesh_cidr, parse_ipv4, parse_cidr4, parse_cidr, net_text,
  leading_zero, lan_cidr_network, ipv4_text, host_port, first_lan_cidr, device_ip,
}
use polar_wg.Store.Tokens.{lookup_unused_token, consume_token}
use polar_wg.Store.Rows.{Role, Db, Device, configured}
use polar_wg.Alloc.Sites.{
  resolve_or_create_site, lookup_site_by_auto_key_in_hub, insert_site, current_hub_slug,
  create_site, auto_slug,
}
use polar_wg.Alloc.{
  bind_hub_device, refresh_existing_device, do_allocate, claim, hub_device_ip, observed_endpoint,
  allocate_device,
}
use polar_wg.Base.{
  ◌++◌, ◌∷◌, [], str_eq, some, ◌≢◌, ap, ◌∙◌, sym, true, arith, refl, none, ◌≡◌, ℕ, trim_space,
  trim_right, trim_left, split, parse_decimal, itoa, is_space, cut,
}

db0_mesh : (id : ℕ) (m : MeshNet) → hub_mesh world db0.hubs id ≡ ok m → (id ≡ 1) × (m ≡ home_mesh)
db0_mesh id m e = elim (ℕ_discrete id 1) [
  | yes same ↦ (same, ok_inj m home_mesh (sym e ∙ ap (hub_mesh world db0.hubs) same ∙ home_parsed))
  | no differ ↦ ground (arith, e, differ)
]

hub_address : hub_device.device_ip ≡ device_ip home_mesh 1
unfolding device_ip ipv4_text itoa net_text
hub_address = refl

pub db0-IsAddressed : IsAddressed world db0
db0-IsAddressed = record {
  placed = (
    (λ _. record {
      mesh = home_mesh;
      of_hub = home_parsed;
      ip = hub_address;
      low = omega arith;
      high = omega arith;
      site = refl;
    }),
    tt,
  );
  meshes = record {
    disjoint =
        λ i j a b differ ea eb. ground (arith, differ, (db0_mesh i a ea).0, (db0_mesh j b eb).0);
    wide = λ i a e. rw ((db0_mesh i a e).1) (omega arith);
  };
  fresh = (omega arith, tt);
}

unseen : lookup_device_by_pubkey db0 (trim_space laptop.pubkey) ≡ none
unfolding lookup_device_by_pubkey trim_space trim_right trim_left is_space
unseen = refl

allocate_device-Ends_example :
    Ends
      (Joined world call laptop secret home db0)
      (λ e. device_refusal e ≡ true)
      (allocate_device world call laptop secret home db0)
allocate_device-Ends_example =
    allocate_device-Ends world call laptop secret home db0 db0-IsAddressed refl unseen refl

ran : allocate_device world call laptop secret home db0 ≡ ok enrolled
unfolding allocate_device trim_space trim_right trim_left is_space parse_mesh_cidr parse_cidr
    parse_cidr4 cut parse_ipv4 split parse_octet parse_decimal leading_zero device_ip ipv4_text itoa
    net_text configured resolve_or_create_site lan_cidr_network first_lan_cidr
    lookup_site_by_auto_key_in_hub create_site auto_slug current_hub_slug get_hub_by_id insert_site
    pick_free_d_index used_d_indexes first_free insert_device consume_token get_device_by_id
    observed_endpoint host_port pick_free_s_index_in_hub used_s_indexes
ran = refl

-- The same call once more.
abbrev twice : Db × Allocated
twice = refreshed laptop used home laptop_row db1

again : do_allocate world call laptop db1 ≡ ok twice
unfolding do_allocate claim refresh_existing_device get_device_by_id lookup_device_by_pubkey
    lookup_unused_token get_hub_by_id trim_space trim_right trim_left is_space
again = refl

Joined-laptop : Joined world call laptop secret home db0 enrolled
Joined-laptop =
    Ends-ok (Joined world call laptop secret home db0) (λ e. device_refusal e ≡ true)
      (allocate_device world call laptop secret home db0) enrolled ran
      (allocate_device-Ends world call laptop secret home db0 db0-IsAddressed refl unseen refl)

token_enrols_one_key_example : trim_space laptop.pubkey ≡ trim_space laptop.pubkey
token_enrols_one_key_example =
    token_enrols_one_key world call call laptop laptop db0 secret home enrolled twice refl refl
      Joined-laptop refl again

token_row : lookup_unused_token world laptop.token 20 db0 ≡ ok (some secret)
unfolding lookup_unused_token
token_row = refl

home_row : get_hub_by_id db0 1 ≡ some home
unfolding get_hub_by_id
home_row = refl

register_again_example :
    (r' : Db × Allocated) × (d : Device) × (do_allocate world call laptop db1 ≡ ok r')
    × (db1.devices ≡ db0.devices ++ d ∷ [])
    × (d.id ≡ 2)
    × (d.device_ip ≡ "100.64.0.2")
    × IsRefreshed laptop d r'.1.device
    × (r'.0 ≡ record db1 { devices = db0.devices ++ r'.1.device ∷ [] })
register_again_example =
    register_again world call call laptop laptop db0 secret home enrolled db0-IsAddressed token_row
      refl home_row unseen Joined-laptop refl refl

hub_in_use : live_where (λ d. str_eq d.device_ip (hub_device_ip world unbound)) db0 ≡ true
unfolding hub_device_ip
hub_in_use = refl

address_in_use_blocks_bind_example :
    bind_hub_device world call laptop (token 3 "#new" Role.hub) unbound db0 ≢ ok enrolled
address_in_use_blocks_bind_example =
    address_in_use_blocks_bind world call laptop (token 3 "#new" Role.hub) unbound db0 enrolled
      hub_in_use
