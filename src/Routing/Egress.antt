-- ===== src/Routing/Egress.antt =====
-- Which routes a device is given on top of its hub's network.
use native.Mathlib.Decide.{ℕ_discrete}
use polar_wg.Routing.{default_route, Hub, subnet_routes, egress_allowed_extra}
use polar_wg.Base.{
  refl, [], arith, inr, ◌==◌, inl, find, trim_space, Option-cases, Bool-cases, ◌∷◌, false, true,
  some, ◌≡◌, str_eq, any, String, List, ℕ,
}

-- The routes that are left after the default route is taken out do not contain it.
pub subnet_routes-no_default :
    (routes : List String) → any (λ r. str_eq r default_route) (subnet_routes routes) ≡ false
unfolding subnet_routes
subnet_routes-no_default [] = refl
subnet_routes-no_default (r ∷ routes) = elim (Bool-cases (str_eq (trim_space r) default_route)) [
  | inl e ↦ rw e (subnet_routes-no_default routes)
  | inr e ↦ rw e (rw (e, subnet_routes-no_default routes))
]

-- Where the default route is among the routes of an egress, the egress hub is the device's own
-- hub.
pub egress_default_route_own_hub :
    (egress : ℕ) (own : Hub) (hubs : List Hub)
    → any (λ r. str_eq r default_route) (egress_allowed_extra (some egress) own hubs) ≡ true
    → egress ≡ own.id
unfolding egress_allowed_extra
egress_default_route_own_hub egress own hubs given = elim (ℕ_discrete egress own.id) [
  | yes e ↦ e
  | no n ↦ elim (Option-cases (find (λ (h : Hub). h.id == egress) hubs)) [
    | inl e ↦ ground (arith, e)
    | inr (h, e) ↦ ground (arith, e, subnet_routes-no_default h.advertised_routes)
  ]
]
