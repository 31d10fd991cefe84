-- ===== src/Store/Views.antt =====
-- The listings for the operator: listWGHubLinks, listWGSites, listWGTokens, listWGDevices
-- and getWGDeviceByDeviceID of internal/wg/store.go, and the counts of
-- sampleWGTokenExpiry of internal/wg/gc.go.
use polar_wg.Store.Hubs.{get_hub_by_id}
use polar_wg.Store.Rows.{is_live, HubLink, Site, Device, Token, Db}
use polar_wg.Base.{
  none, ◌&&◌, ltb, [], ◌==◌, some, str_eq, ◌||◌, select, order_by, map, false, find, ◌++◌, length,
  ◌∷◌, Option, String, List, Bool,
}
use Prim.Native.Nat.{ℕ, ◌+◌}

-- The rows from the last to the first.
unfoldable pub backwards {ℓ} : {A : Type ℓ} → List A → List A
backwards [] = []
backwards (x ∷ xs) = backwards xs ++ x ∷ []

abbrev hub_slug_or_empty : Db → ℕ → String
hub_slug_or_empty db id = elim (get_hub_by_id db id) [ none ↦ "" | some h ↦ h.slug ]

-- A link with the slugs of its hubs, which the foreign keys make sure of.
unfoldable pub list_hub_links : Db → List (HubLink × String × String)
list_hub_links db =
    map (λ (l : HubLink). (l, hub_slug_or_empty db l.hub_a_id, hub_slug_or_empty db l.hub_b_id))
      db.links

-- A site with the number of its live devices.
unfoldable pub list_sites : Db → List (Site × ℕ)
list_sites db =
    map
      (λ (s : Site).
        (s, length (select (λ (d : Device). d.site_id == s.id && is_live d) db.devices)))
      (order_by (λ (s : Site). s.hub_id) (order_by (λ (s : Site). s.s_index) db.sites))

-- ORDER BY created_at DESC, id DESC
unfoldable pub list_tokens : Db → List Token
list_tokens db =
    backwards (order_by (λ (t : Token). t.created_at) (order_by (λ (t : Token). t.id) db.tokens))

abbrev site_slug_or_empty : Db → ℕ → String
site_slug_or_empty db id = elim (find (λ (s : Site). s.id == id) db.sites) [
  | none ↦ ""
  | some s ↦ s.slug
]

-- ORDER BY hub_id, site_id, d_index, with the slugs of the device's site and hub.
unfoldable pub list_devices : Bool → Db → List Device
list_devices include_removed db =
    map
      (λ (d : Device). record d {
        site_slug = site_slug_or_empty db d.site_id;
        hub_slug = hub_slug_or_empty db d.hub_id;
      })
      (order_by (λ (d : Device). d.hub_id)
        (order_by (λ (d : Device). d.site_id)
          (order_by (λ (d : Device). d.d_index)
            (select (λ (d : Device). include_removed || is_live d) db.devices))))

unfoldable pub get_device_by_device_id : Db → String → Option Device
get_device_by_device_id db device_id =
    find (λ (d : Device). str_eq d.device_id device_id) db.devices

abbrev expires_before : ℕ → Option ℕ → Bool
expires_before when none = false
expires_before when (some t) = ltb t when

-- The live devices whose token expires before a time.
unfoldable pub expiring : ℕ → Db → ℕ
expiring when db =
    length (select (λ (d : Device). is_live d && expires_before when d.token_expires_at) db.devices)

-- sampleWGTokenExpiry: within seven days and within thirty.
unfoldable pub sample_token_expiry : ℕ → Db → ℕ × ℕ
sample_token_expiry now db =
    (expiring (now + 604800000000000) db, expiring (now + 2592000000000000) db)
