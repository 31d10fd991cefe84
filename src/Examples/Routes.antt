-- ===== src/Examples/Routes.antt =====
-- Two hubs that are up, a link between them, and a device that leaves.
use polar_wg.Admin.Egress.{device_update_effective}
use polar_wg.Admin.Links.{create_hub_link-symmetric}
use polar_wg.Examples.Data.{home, hub_device, world, db1, laptop_row}
use polar_wg.Errors.{ok}
use polar_wg.Routing.Fabric.{other_configured_hubs-IsFabric, same_network, is_usable}
use polar_wg.Routing.Reach.{passes, has_network, cross_hub_allowed_extra_iff}
use polar_wg.Routing.Egress.{egress_default_route_own_hub}
use polar_wg.Net.{hub_mesh_network}
use polar_wg.Store.Hubs.{list_hubs, get_hub_by_id}
use polar_wg.Store.Devices.{update_device_egress_hub, get_device_by_id}
use polar_wg.Routing.{
  other_configured_hubs, cross_hub_allowed_extra, default_route, subnet_routes,
  egress_allowed_extra,
}
use polar_wg.Admin.{device_update}
use polar_wg.Store.Links.{hub_link_set, upsert_link, norm_hub_pair, create_hub_link}
use polar_wg.Store.Rows.{HubLink, Db, Hub, configured}
use polar_wg.Base.{
  find, Pairs, is_empty, not, [], true, ◌||◌, none, false, ◌&&◌, refl, ◌∷◌, any, All, some, is_nil,
  elem, str_eq, ◌≡◌, ◌==◌, trim_space, trim_right, trim_left, is_space,
}

abbrev office : Hub
office = record home {
  id = 2;
  slug = "office";
  pubkey = "officekey";
  endpoint = "203.0.113.8:51820";
  wg_ip = "100.64.1.1";
  mesh_cidr = "100.64.1.0/24";
  bound_device_id = none;
  advertised_routes = "192.168.50.0/24" ∷ "0.0.0.0/0" ∷ [];
}

abbrev two : Db
two = record db1 { hubs = home ∷ office ∷ []; next_hub = 3 }

other_configured_hubs-IsFabric_example :
    All
      (λ h.
        (is_usable world 1 h ≡ true)
        × (str_eq (hub_mesh_network world h.mesh_cidr) (hub_mesh_network world home.mesh_cidr)
            ≡ false))
      (other_configured_hubs world two.hubs 1 home.mesh_cidr)
    × Pairs
        (λ g h. same_network world h g ≡ false)
        (other_configured_hubs world two.hubs 1 home.mesh_cidr)
other_configured_hubs-IsFabric_example =
    other_configured_hubs-IsFabric world two.hubs 1 home.mesh_cidr

cross_hub_allowed_extra_iff_example :
    any
      (λ r. str_eq r "100.64.1.0/24")
      (cross_hub_allowed_extra world two.hubs 1 home.mesh_cidr (2 ∷ []) [])
    ≡ (not (str_eq "100.64.1.0/24" (hub_mesh_network world home.mesh_cidr))
        && passes
            (λ h. elem h.id (2 ∷ []) && not (elem h.id []))
            (find (has_network world 1 "100.64.1.0/24") two.hubs))
cross_hub_allowed_extra_iff_example =
    cross_hub_allowed_extra_iff world two.hubs 1 home.mesh_cidr (2 ∷ []) [] "100.64.1.0/24"

own_tunnel :
    any (λ r. str_eq r default_route) (egress_allowed_extra (some 2) office two.hubs) ≡ true
unfolding egress_allowed_extra trim_space trim_right trim_left is_space
own_tunnel = refl

egress_default_route_own_hub_example : 2 ≡ office.id
egress_default_route_own_hub_example = egress_default_route_own_hub 2 office two.hubs own_tunnel

abbrev routed : Db
routed = record two { devices = hub_device ∷ record laptop_row { egress_hub_id = some 2 } ∷ [] }

routed_row : device_update 2 (some 2) two ≡ ok routed
unfolding device_update update_device_egress_hub get_device_by_id get_hub_by_id subnet_routes
    trim_space trim_right trim_left is_space
routed_row = refl

laptop_in : get_device_by_id two 2 ≡ some laptop_row
unfolding get_device_by_id
laptop_in = refl

home_in : get_hub_by_id two 1 ≡ some home
unfolding get_hub_by_id
home_in = refl

office_in : get_hub_by_id two 2 ≡ some office
unfolding get_hub_by_id
office_in = refl

office_up :
    (office.id == laptop_row.hub_id
      || (configured office && not (is_empty (trim_space office.endpoint))))
    ≡ true
unfolding configured trim_space trim_right trim_left is_space
office_up = refl

device_update_effective_example :
    is_nil (egress_allowed_extra (some 2) home (list_hubs two)) ≡ false
device_update_effective_example =
    device_update_effective 2 2 two routed laptop_row home office laptop_in home_in office_in
      office_up routed_row

abbrev link : HubLink
link = record { id = 1; hub_a_id = 1; hub_b_id = 2; created_at = 30 }

abbrev linked : Db × HubLink
linked = (record two { links = link ∷ []; next_link = 2 }, link)

links : create_hub_link 2 1 30 two ≡ ok linked
unfolding create_hub_link upsert_link norm_hub_pair
links = refl

create_hub_link-symmetric_example :
    (elem 1 (hub_link_set linked.0 2) ≡ true) × (elem 2 (hub_link_set linked.0 1) ≡ true)
create_hub_link-symmetric_example = create_hub_link-symmetric 2 1 30 two linked links
