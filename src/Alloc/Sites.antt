-- ===== src/Alloc/Sites.antt =====
-- The sites of a hub: `currentHubSlug`, `lookupSiteBySlugInHub`, `lookupSiteByAutoKeyInHub`,
-- `getOrCreateSiteTx`, `createSite` and `resolveOrCreateWGSite` of internal/wg/alloc.go.
use polar_wg.Base.{
  ℕ, suc, String, not, ◌&&◌, Option, none, some, [], ◌∷◌, ◌++◌, leb, ◌==◌, if◌then◌else◌, str_eq,
  is_empty, append, itoa, trim_space, find, any,
}
use polar_wg.Errors.{
  Result, ok, ◌>>=◌, ◌>>◌, require, violates, sites_slug, sites_hub_sindex, sites_sindex_check,
}
use polar_wg.Net.{World, first_lan_cidr, lan_cidr_network}
use polar_wg.Store.Rows.{Hub, Site, Db}
use polar_wg.Store.Hubs.{get_hub_by_id}
use polar_wg.Alloc.Index.{pick_free_s_index_in_hub}
use polar_wg.Alloc.Input.{RegisterInput}

abbrev slug_or_empty : Option Hub → String
slug_or_empty none = ""
slug_or_empty (some h) = h.slug

unfoldable pub current_hub_slug : Db → ℕ → String
current_hub_slug db hub_id = slug_or_empty (get_hub_by_id db hub_id)

unfoldable pub lookup_site_by_slug_in_hub : Db → ℕ → String → Option Site
lookup_site_by_slug_in_hub db hub_id slug =
    find (λ s. s.hub_id == hub_id && str_eq s.slug slug) db.sites

unfoldable pub lookup_site_by_auto_key_in_hub : Db → ℕ → String → String → Option Site
lookup_site_by_auto_key_in_hub db hub_id public_ip lan_cidr =
    find (λ s. s.hub_id == hub_id && str_eq s.public_ip public_ip && str_eq s.lan_cidr lan_cidr)
      db.sites

abbrev pub new_site : Db → ℕ → String → ℕ → String → String → String → ℕ → Site
new_site db hub_id slug s_index label public_ip lan_cidr now = record {
  id = db.next_site;
  hub_id = hub_id;
  slug = slug;
  s_index = s_index;
  label = label;
  public_ip = public_ip;
  lan_cidr = lan_cidr;
  created_at = now;
}

abbrev pub with_site : Db → Site → Db
with_site db row = record db { sites = db.sites ++ row ∷ []; next_site = suc db.next_site }

-- INSERT INTO wg_sites under the unique indexes and the check of the schema.
unfoldable pub insert_site : ℕ → String → ℕ → String → String → String → ℕ → Db → Result (Db × Site)
insert_site hub_id slug s_index label public_ip lan_cidr now db = do
  require (leb s_index 254) (violates sites_sindex_check)
  require (not (any (λ (s : Site). str_eq s.slug slug) db.sites)) (violates sites_slug)
  require (not (any (λ (s : Site). s.hub_id == hub_id && s.s_index == s_index) db.sites))
      (violates sites_hub_sindex)
  let row = new_site db hub_id slug s_index label public_ip lan_cidr now
  ok (with_site db row, row)

unfoldable pub get_or_create_site :
    ℕ → String → ℕ → String → String → String → ℕ → Db → Result (Db × Site)
get_or_create_site hub_id slug s_index label public_ip lan_cidr now db =
    elim (lookup_site_by_slug_in_hub db hub_id slug) [
      | some s ↦ ok (db, s)
      | none ↦ insert_site hub_id slug s_index label public_ip lan_cidr now db
    ]

-- fmt.Sprintf("%s:site_%d", currentHubSlug(tx, hubID), sIdx)
unfoldable pub auto_slug : Db → ℕ → ℕ → String
auto_slug db hub_id s_index = append (current_hub_slug db hub_id) (append ":site_" (itoa s_index))

unfoldable pub create_site : ℕ → String → String → String → String → ℕ → Db → Result (Db × Site)
create_site hub_id slug label public_ip lan_cidr now db = do
  s_index ← pick_free_s_index_in_hub db hub_id
  let slug' = if is_empty (trim_space slug) then auto_slug db hub_id s_index else slug
  insert_site hub_id slug' s_index label public_ip lan_cidr now db

-- An explicit slug wins; otherwise the site is found by the public address and the LAN's network.
unfoldable pub resolve_or_create_site : World → ℕ → RegisterInput → ℕ → Db → Result (Db × Site)
resolve_or_create_site w hub_id i now db =
    let slug = trim_space i.site_slug in
    let lan = lan_cidr_network w (first_lan_cidr i.lan_addrs) in
    let full_slug = append (current_hub_slug db hub_id) (append ":" slug) in
    let public_ip = trim_space i.public_ip in
    if is_empty slug
    then elim (lookup_site_by_auto_key_in_hub db hub_id public_ip lan) [
      | some s ↦ ok (db, s)
      | none ↦ create_site hub_id "" "" public_ip lan now db
    ]
    else elim (lookup_site_by_slug_in_hub db hub_id full_slug) [
      | some s ↦ ok (db, s)
      | none ↦ create_site hub_id full_slug "" i.public_ip lan now db
    ]
