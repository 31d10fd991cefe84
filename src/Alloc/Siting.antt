-- ===== src/Alloc/Siting.antt =====
-- Finding or making the site of a device: which errors there are, and what it leaves alone.
use polar_wg.Base.{
  if◌then◌else◌, All-any, any-All, ◌⊎◌, ℕ, ◌≤◌, String, ◌≡◌, refl, sym, Bool, true, false, ◌&&◌,
  none, some, List, [], ◌∷◌, ◌++◌, arith, ◌==◌, str_eq, is_empty, trim_space, any, find, All-mono,
  find-test, find-any_of, any-append_last, append-nil, inl, inr, Bool-cases, Option-cases,
}
use polar_wg.Errors.{Error, Result, ok, err, violates, sites_slug, site_slots_exhausted}
use polar_wg.Errors.Ends.{Ends, returns, fails, Ends-bind, Ends-if, Ends-eq}
use polar_wg.Net.{World}
use polar_wg.Store.Rows.{Site, Db}
use polar_wg.Alloc.Index.{pick_free_s_index_in_hub}
use polar_wg.Alloc.Free.{s_index_taken, pick_free_s_index_lem, Searched}
use polar_wg.Alloc.Input.{RegisterInput}
use polar_wg.Alloc.Sites.{
  new_site, with_site, insert_site, create_site, resolve_or_create_site, lookup_site_by_slug_in_hub,
  lookup_site_by_auto_key_in_hub,
}

-- The site is one of the hub's, and nothing but the table of sites has changed, which has grown.
pub record AtSite (db : Db) (hub_id : ℕ) (r : Db × Site) : Type 0 where
  pub member : any (λ (s : Site). s.id == r.1.id && s.hub_id == hub_id) r.0.sites ≡ true
  pub extra : List Site
  pub sites : r.0.sites ≡ db.sites ++ extra
  pub hubs : r.0.hubs ≡ db.hubs
  pub tokens : r.0.tokens ≡ db.tokens
  pub devices : r.0.devices ≡ db.devices
  pub next_device : r.0.next_device ≡ db.next_device
  pub next_hub : r.0.next_hub ≡ db.next_hub

abbrev pub SiteRefusal : Error → Type 0
SiteRefusal e = (e ≡ violates sites_slug) ⊎ (e ≡ site_slots_exhausted)

module _ (db : Db) (hub_id : ℕ) where
  pub found-AtSite :
      (p : Site → Bool) (s : Site)
      → ((r : Site) → p r ≡ true → r.hub_id ≡ hub_id)
      → find p db.sites ≡ some s
      → AtSite db hub_id (db, s)
  found-AtSite p s of_hub e = record {
    member =
        find-any_of p (λ r. r.id == s.id && r.hub_id == hub_id) db.sites s e
          (ground (arith, of_hub s (find-test p db.sites s e)));
    extra = [];
    sites = sym (append-nil db.sites);
    hubs = refl;
    tokens = refl;
    devices = refl;
    next_device = refl;
    next_hub = refl;
  }

  pub grown-AtSite : (row : Site) → row.hub_id ≡ hub_id → AtSite db hub_id (with_site db row, row)
  grown-AtSite row e = record {
    member =
        any-append_last (λ r. r.id == row.id && r.hub_id == hub_id) db.sites row
          (ground (arith, e));
    extra = row ∷ [];
    sites = refl;
    hubs = refl;
    tokens = refl;
    devices = refl;
    next_device = refl;
    next_hub = refl;
  }

  -- With an index in range that no site of the hub has, only the slug can be taken.
  insert_site-eq :
      (slug : String) (s_index : ℕ) (label public_ip lan_cidr : String) (now : ℕ)
      → s_index ≤ 254
      → s_index_taken db hub_id s_index ≡ false
      → let row = new_site db hub_id slug s_index label public_ip lan_cidr now in
        insert_site hub_id slug s_index label public_ip lan_cidr now db ≡ (
          if any (λ (s : Site). str_eq s.slug slug) db.sites
          then err (violates sites_slug)
          else ok (with_site db row, row))
  unfolding insert_site
  insert_site-eq slug s_index label public_ip lan_cidr now small free = ground (arith, taken_sym)
    where
      taken_sym : any (λ (s : Site). s.hub_id == hub_id && s.s_index == s_index) db.sites ≡ false
      taken_sym = All-any _ db.sites (
          All-mono (λ s. (s.hub_id == hub_id && s_index == s.s_index) ≡ false)
            (λ s. (s.hub_id == hub_id && s.s_index == s_index) ≡ false) (λ s e. ground arith)
            db.sites
            (any-All (λ (s : Site). s.hub_id == hub_id && s_index == s.s_index) db.sites free))

  insert_site-Ends :
      (slug : String) (s_index : ℕ) (label public_ip lan_cidr : String) (now : ℕ)
      → s_index ≤ 254
      → s_index_taken db hub_id s_index ≡ false
      → Ends
          (AtSite db hub_id)
          SiteRefusal
          (insert_site hub_id slug s_index label public_ip lan_cidr now db)
  insert_site-Ends slug s_index label public_ip lan_cidr now small free =
      let row = new_site db hub_id slug s_index label public_ip lan_cidr now in
      Ends-eq (AtSite db hub_id) SiteRefusal
        (insert_site-eq slug s_index label public_ip lan_cidr now small free)
        (Ends-if (AtSite db hub_id) SiteRefusal (any (λ (s : Site). str_eq s.slug slug) db.sites)
          (err (violates sites_slug)) (ok (with_site db row, row)) (λ _. fails _ (inl refl))
          (λ _. returns _ (grown-AtSite row refl)))

  create_site-Ends :
      (slug label public_ip lan_cidr : String) (now : ℕ)
      → Ends
          (AtSite db hub_id)
          SiteRefusal
          (create_site hub_id slug label public_ip lan_cidr now db)
  unfolding create_site
  create_site-Ends slug label public_ip lan_cidr now =
      Ends-bind _ (picked (pick_free_s_index_in_hub db hub_id) (pick_free_s_index_lem db hub_id))
        λ k fits. insert_site-Ends _ k label public_ip lan_cidr now fits.0 fits.1
    where
      picked :
          (r : Result ℕ)
          → Searched (s_index_taken db hub_id) 1 254 site_slots_exhausted r
          → Ends (λ k. (k ≤ 254) × (s_index_taken db hub_id k ≡ false)) SiteRefusal r
      picked (ok k) s = returns k (omega (arith, s.1), s.2)
      picked (err e) s = fails e (inr s.0)

  found_or_created :
      (p : Site → Bool) (slug public_ip lan : String) (now : ℕ)
      → ((r : Site) → p r ≡ true → r.hub_id ≡ hub_id)
      → Ends (AtSite db hub_id) SiteRefusal (elim (find p db.sites) [
        | some s ↦ ok (db, s)
        | none ↦ create_site hub_id slug "" public_ip lan now db
      ])
  found_or_created p slug public_ip lan now of_hub = elim (Option-cases (find p db.sites)) [
    | inl e ↦ rw e (create_site-Ends slug "" public_ip lan now)
    | inr (s, e) ↦ rw e (returns _ (found-AtSite p s of_hub e))
  ]

  -- The site of a device is found, or is new in its hub; an insertion can fail only on the slug.
  pub resolve_or_create_site-Ends :
      (w : World) (i : RegisterInput) (now : ℕ)
      → Ends (AtSite db hub_id) SiteRefusal (resolve_or_create_site w hub_id i now db)
  unfolding resolve_or_create_site lookup_site_by_slug_in_hub lookup_site_by_auto_key_in_hub
  resolve_or_create_site-Ends w i now = elim (Bool-cases (is_empty (trim_space i.site_slug))) [
    | inl e ↦ rw e (found_or_created _ _ _ _ now (λ r h. ground arith))
    | inr e ↦ rw e (found_or_created _ _ _ _ now (λ r h. ground arith))
  ]
