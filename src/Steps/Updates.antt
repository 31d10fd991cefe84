-- ===== src/Steps/Updates.antt =====
-- The update of a hub that keeps its network and its address.
use polar_wg.Net.Chars.{is_empty-append}
use polar_wg.Net.Octets.{itoa-OctetText}
use polar_wg.Mint.Disjoint.{parsed_is_full}
use polar_wg.Steps.Frame.{hubs_where-Alike, Alike, SameHub}
use polar_wg.Routing.Validate.{
  validate_advertised_routes, validate_mesh_cidr_disjoint, validate_policy, Parsers,
}
use polar_wg.Steps.{HaveTwoIds, IsSound, HasOwnAddress}
use polar_wg.Store.Rows.{Db, Hub}
use polar_wg.Store.Hubs.{list_hubs, overwrite, get_hub_by_id, update_hub}
use polar_wg.Admin.{changed, hub_update, HubChange}
use polar_wg.Net.{device_address, World, MeshNet, ipv4_text, device_ip}
use polar_wg.Base.{
  none, some, ◌%◌, ◌/◌, [], All-mono, find-All, some_inj, Bool-cases, arith, ◌∷◌, String, find-test,
  All, some, ◌==◌, itoa, Option, find, ◌<◌, Pairs, false, true, ◌≡◌, List, is_empty, ℕ,
  if◌then◌else◌, refl, inl, inr,
}
use polar_wg.Errors.{Result, no_rows, ok}
use polar_wg.Errors.Ends.{anything, Ends-or_fail, Ends-bind, Ends-ok, returns}
use mathlib.Core.Path.{subst, sym}

-- A row with the id of a row that is found is this row.
found_alone :
    (id : ℕ) (P : Hub → Type 0) (xs : List Hub) (h : Hub)
    → Pairs HaveTwoIds xs
    → find (λ (x : Hub). x.id == id) xs ≡ some h
    → P h
    → All (λ (x : Hub). (x.id == id) ≡ true → P x) xs
found_alone id P [] h v e p = tt
found_alone id P (x ∷ xs) h v e p = elim (Bool-cases (x.id == id)) [
  | inl t ↦
      let same : x ≡ h = some_inj x h (rw t at e) in
      (
        (λ _. subst P (sym same) p),
        All-mono (HaveTwoIds x) (λ (y : Hub). (y.id == id) ≡ true → P y)
            (λ y differ i. absurd (differ (ground arith))) xs v.0,
      )
  | inr t ↦ ((λ i. cc), found_alone id P xs h v.1 (rw t at e) p)
]

device_ip_not_empty : (m : MeshNet) (k : ℕ) → is_empty (device_ip m k) ≡ false
unfolding device_ip ipv4_text
device_ip_not_empty m k =
    is_empty-append _ _ (octet (device_address m k / 16777216 % 256) (omega arith))
  where
    octet : (n : ℕ) → n < 256 → is_empty (itoa n) ≡ false
    octet n small = (itoa-OctetText n small).not_empty

-- A change that names no network and no address.
pub record KeepsNetwork (r : HubChange) : Type 0 where
  pub mesh_cidr : is_empty r.mesh_cidr ≡ true
  pub wg_ip : is_empty r.wg_ip ≡ true

module _ (w : World) (r : HubChange) (keeps : KeepsNetwork r) where
  overwrite-SameHub :
      (h : Hub) (now : ℕ) → HasOwnAddress w h → SameHub h (overwrite (changed r h) now h)
  overwrite-SameHub h now o =
      let full = parsed_is_full w h.mesh_cidr o.mesh o.parsed in
      let named : is_empty h.wg_ip ≡ false =
        subst (λ (s : String). is_empty s ≡ false) (sym o.own) (device_ip_not_empty o.mesh 1) in
      record {
        id = refl;
        mesh_cidr = rw (keeps.mesh_cidr, full) refl;
        wg_ip = rw (keeps.wg_ip, named) refl;
      }

  update_hub-Alike :
      (id now : ℕ) (h : Hub) (db : Db)
      → IsSound w db
      → find (λ (x : Hub). x.id == id) db.hubs ≡ some h
      → Alike w db (update_hub (changed r h) now db).0
  unfolding update_hub
  update_hub-Alike id now h db v row =
      let own_id : (h.id == id) ≡ true = find-test (λ (x : Hub). x.id == id) db.hubs h row in
      let same : h.id ≡ id = ground arith in
      hubs_where-Alike w (λ (x : Hub). x.id == h.id) (overwrite (changed r h) now) (λ x. refl) db
        (found_alone h.id (λ x. SameHub x (overwrite (changed r h) now x)) db.hubs h v.distinct
          (subst (λ k. find (λ (x : Hub). x.id == k) db.hubs ≡ some h) (sym same) row)
          (overwrite-SameHub h now
            (find-All (HasOwnAddress w) (λ (x : Hub). x.id == id) db.hubs h v.addresses row)))

  -- The two checks of an update that read the hubs.
  abbrev network_checked : Db → Hub → Result (Unit {0})
  network_checked db h =
      if is_empty r.mesh_cidr
      then ok tt
      else validate_mesh_cidr_disjoint w r.mesh_cidr (list_hubs db) h.id

  abbrev routes_checked : Db → Result (Unit {0})
  routes_checked db = elim r.advertised_routes [
    | none ↦ ok tt
    | some routes ↦ validate_advertised_routes w routes (list_hubs db)
  ]

  pub hub_update-Alike :
      (p : Parsers) (id now : ℕ) (db : Db) (r' : Db × Option Hub)
      → IsSound w db
      → hub_update w p id r now db ≡ ok r'
      → Alike w db r'.0
  unfolding hub_update get_hub_by_id
  hub_update-Alike p id now db r' v done =
      Ends-ok (λ (x : Db × Option Hub). Alike w db x.0) (λ _. Unit) (hub_update w p id r now db) r'
        done
        (Ends-bind _
          (Ends-or_fail (λ (h : Hub). find (λ (x : Hub). x.id == id) db.hubs ≡ some h) (λ _. Unit)
            (get_hub_by_id db id) no_rows (λ _. tt) (λ h e. e))
          λ h row. Ends-bind _ (anything (network_checked db h)) λ _ _.
            Ends-bind _ (anything (routes_checked db)) λ _ _.
              Ends-bind _ (anything (validate_policy p r.policy))
                λ _ _. returns _ (update_hub-Alike id now h db v row))
