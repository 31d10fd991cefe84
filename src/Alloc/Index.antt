-- ===== src/Alloc/Index.antt =====
-- The search for a free index: `pickFreeSIndexInHub` and `pickFreeDIndex` of internal/wg/alloc.go.
use polar_wg.Base.{
  ℕ, zero, suc, ◌+◌, Bool, Option, none, some, List, ◌&&◌, ◌==◌, if◌then◌else◌, elem, any, map,
  select,
}
use polar_wg.Errors.{Result, or_fail, site_exhausted, site_slots_exhausted}
use polar_wg.Store.Rows.{Site, Device, Db, is_live}

-- `for v := from; …; v++ { if !used[v] { return v } }`, for the given number of rounds.
unfoldable pub first_free : ℕ → ℕ → List ℕ → Option ℕ
first_free zero v used = none
first_free (suc rounds) v used =
    let rest = first_free rounds (v + 1) used in if elem v used then rest else some v

-- SELECT s_index FROM wg_sites WHERE hub_id = $1
unfoldable pub used_s_indexes : Db → ℕ → List ℕ
used_s_indexes db hub_id = map (λ (s : Site). s.s_index) (select (λ s. s.hub_id == hub_id) db.sites)

-- v from 1 to 254
unfoldable pub pick_free_s_index_in_hub : Db → ℕ → Result ℕ
pick_free_s_index_in_hub db hub_id =
    or_fail (first_free 254 1 (used_s_indexes db hub_id)) site_slots_exhausted

-- The JOIN: the device's site belongs to the hub.
abbrev pub in_hub : Db → ℕ → Device → Bool
in_hub db hub_id d = any (λ (s : Site). s.id == d.site_id && s.hub_id == hub_id) db.sites

-- The d_index of every live device of the hub, at whatever site.
unfoldable pub used_d_indexes : Db → ℕ → List ℕ
used_d_indexes db hub_id =
    map (λ (d : Device). d.d_index) (select (λ d. in_hub db hub_id d && is_live d) db.devices)

-- v from 2 to 254
unfoldable pub pick_free_d_index : Db → ℕ → Result ℕ
pick_free_d_index db hub_id = or_fail (first_free 253 2 (used_d_indexes db hub_id)) site_exhausted
