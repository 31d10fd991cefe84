-- ===== src/Admin/Egress.antt =====
-- An egress that the operator has been allowed to choose.
use mathlib.Core.Path.{subst}
use native.Mathlib.Decide.{ℕ_discrete}
use polar_wg.Store.Rows.{configured}
use polar_wg.Routing.{egress_allowed_extra}
use polar_wg.Admin.{
  subnet_routes, ok, is_empty, not, some, get_device_by_id, Hub, Device, Db, ℕ, list_hubs, is_nil,
  get_hub_by_id, String, device_update,
}
use polar_wg.Store.Hubs.{get_hub_by_id, list_hubs}
use polar_wg.Base.{
  ap, sym, ◌∙◌, some_inj, ==_refl, find-test, arith, false, true, ◌&&◌, ◌||◌, ◌==◌, refl, [], ◌∷◌,
  ◌≡◌, trim_space, map, List,
}

map-nil : (routes : List String) → is_nil (map trim_space routes) ≡ is_nil routes
map-nil [] = refl
map-nil (r ∷ routes) = refl

accepted :
    (id e : ℕ) (db db' : Db) (d : Device) (h : Hub)
    → get_device_by_id db id ≡ some d
    → get_hub_by_id db e ≡ some h
    → device_update id (some e) db ≡ ok db'
    → (is_nil h.advertised_routes ≡ false)
      × ((h.id == d.hub_id || not (is_nil (subnet_routes h.advertised_routes))) ≡ true)
unfolding device_update
accepted id e db db' d h row hub_row done = ground (arith, row, hub_row)

found_id : (id : ℕ) (db : Db) (h : Hub) → get_hub_by_id db id ≡ some h → h.id ≡ id
unfolding get_hub_by_id
found_id id db h e =
    let hit : (h.id == id) ≡ true = find-test (λ (x : Hub). x.id == id) db.hubs h e in ground arith

through_own :
    (own : Hub) (hubs : List Hub)
    → is_nil own.advertised_routes ≡ false
    → is_nil (egress_allowed_extra (some own.id) own hubs) ≡ false
unfolding egress_allowed_extra
through_own own hubs some_route = rw (==_refl own.id) (map-nil own.advertised_routes ∙ some_route)

through_other :
    (e : ℕ) (own h : Hub) (db : Db)
    → get_hub_by_id db e ≡ some h
    → (e == own.id) ≡ false
    → (configured h && not (is_empty (trim_space h.endpoint))) ≡ true
    → is_nil (subnet_routes h.advertised_routes) ≡ false
    → is_nil (egress_allowed_extra (some e) own (list_hubs db)) ≡ false
unfolding egress_allowed_extra get_hub_by_id list_hubs
through_other e own h db row other up routes = rw (other, row) (ground (arith, up, routes))

-- An egress hub that has been accepted for a device gives it at least one route, where it is the
-- device's own hub or is up and has an endpoint.
pub device_update_effective :
    (id e : ℕ) (db db' : Db) (d : Device) (own h : Hub)
    → get_device_by_id db id ≡ some d
    → get_hub_by_id db d.hub_id ≡ some own
    → get_hub_by_id db e ≡ some h
    → (h.id == d.hub_id || (configured h && not (is_empty (trim_space h.endpoint)))) ≡ true
    → device_update id (some e) db ≡ ok db'
    → is_nil (egress_allowed_extra (some e) own (list_hubs db)) ≡ false
device_update_effective id e db db' d own h row own_row hub_row reachable done =
    let (some_route, subnet) = accepted id e db db' d h row hub_row done in
    let own_id : own.id ≡ d.hub_id = found_id d.hub_id db own own_row in
    let h_id : h.id ≡ e = found_id e db h hub_row in
    elim (ℕ_discrete e own.id) [
      | yes same ↦
          let is_own : h ≡ own =
            some_inj h own (sym hub_row ∙ ap (get_hub_by_id db) (same ∙ own_id) ∙ own_row) in
          subst (λ k. is_nil (egress_allowed_extra (some k) own (list_hubs db)) ≡ false) (sym same)
            (through_own own (list_hubs db)
              (subst (λ (x : Hub). is_nil x.advertised_routes ≡ false) is_own some_route))
      | no differ ↦
          through_other e own h db hub_row (ground (arith, differ))
            (ground (arith, differ, own_id, h_id, reachable))
            (ground (arith, differ, own_id, h_id, subnet))
    ]
