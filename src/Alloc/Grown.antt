-- ===== src/Alloc/Grown.antt =====
-- What one more site, and one more device, make of a well-addressed database.
use mathlib.Core.Path.{subst}
use polar_wg.Base.{
  sym, ℕ, suc, ◌≤◌, ◌<◌, ◌≡◌, true, false, ◌&&◌, none, some, List, [], ◌∷◌, ◌++◌, arith, ◌==◌,
  str_eq, any, find, update_where, All, All-mono, All-append, All-find, find-append_none,
  any-append_left, ◌∙◌,
}
use polar_wg.Errors.{ok}
use polar_wg.Net.{World}
use polar_wg.Store.Rows.{Site, Token, Device, Db, is_live}
use polar_wg.Store.Tokens.{consume}
use polar_wg.Store.Devices.{insert_device, get_device_by_id, live_where}
use polar_wg.Alloc.Addressing.{Placed, IsAddressed}
use polar_wg.Alloc.Siting.{AtSite}

-- A grown table of sites leaves every device in its place.
pub grown-Placed :
    (w : World) (db db' : Db) (extra : List Site) (d : Device)
    → db'.sites ≡ db.sites ++ extra
    → db'.hubs ≡ db.hubs
    → Placed w db d
    → Placed w db' d
grown-Placed w db db' extra d es eh p = record {
  mesh = p.mesh;
  of_hub = rw eh p.of_hub;
  ip = p.ip;
  low = p.low;
  high = p.high;
  site =
      rw es
        (any-append_left (λ s. s.id == d.site_id && s.hub_id == d.hub_id) db.sites extra p.site);
}

pub AtSite-IsAddressed :
    (w : World) (db : Db) (hub_id : ℕ) (r : Db × Site)
    → AtSite db hub_id r
    → IsAddressed w db
    → IsAddressed w r.0
AtSite-IsAddressed w db hub_id r s v = record {
  placed = subst (All (λ d. is_live d ≡ true → Placed w r.0 d)) (sym s.devices) (
      All-mono (λ d. is_live d ≡ true → Placed w db d) (λ d. is_live d ≡ true → Placed w r.0 d)
        (λ d p live. grown-Placed w db r.0 s.extra d s.sites s.hubs (p live)) db.devices v.placed);
  meshes = rw s.hubs v.meshes;
  fresh = rw (s.devices, s.next_device) v.fresh;
}

-- The database with one more device, and its token used up.
abbrev pub joined : Db → Device → ℕ → ℕ → Db
joined db row token_id now = record db {
  devices = db.devices ++ row ∷ [];
  next_device = suc db.next_device;
  tokens = update_where (λ (t : Token). t.id == token_id) (consume now row.id) db.tokens;
}

pub joined-IsAddressed :
    (w : World) (db : Db) (row : Device) (token_id now : ℕ)
    → row.id ≡ db.next_device
    → Placed w db row
    → IsAddressed w db
    → IsAddressed w (joined db row token_id now)
joined-IsAddressed w db row token_id now e p v = record {
  placed =
      All-append (λ d. is_live d ≡ true → Placed w db' d) db.devices (row ∷ [])
        (All-mono (λ d. is_live d ≡ true → Placed w db d) (λ d. is_live d ≡ true → Placed w db' d)
          (λ d q live. moved d (q live)) db.devices v.placed)
        ((λ _. moved row p), tt);
  meshes = v.meshes;
  fresh =
      All-append (λ d. d.id < db'.next_device) db.devices (row ∷ [])
        (All-mono (λ d. d.id < db.next_device) (λ d. d.id < db'.next_device) (λ d h. omega arith)
          db.devices v.fresh)
        (omega (arith, e), tt);
}
  where
    db' : Db
    db' = joined db row token_id now

    moved : (d : Device) → Placed w db d → Placed w db' d
    moved d q = record {
      mesh = q.mesh;
      of_hub = q.of_hub;
      ip = q.ip;
      low = q.low;
      high = q.high;
      site = q.site;
    }

pub joined_read_back :
    (db : Db) (row : Device) (token_id now : ℕ)
    → row.id ≡ db.next_device
    → All (λ d. d.id < db.next_device) db.devices
    → get_device_by_id (joined db row token_id now) row.id ≡ some row
unfolding get_device_by_id
joined_read_back db row token_id now e fresh =
    let old : find (λ d. d.id == row.id) db.devices ≡ none =
      All-find (λ d. d.id == row.id) db.devices
        (All-mono (λ d. d.id < db.next_device) (λ d. (d.id == row.id) ≡ false)
          (λ d h. ground (arith, e)) db.devices fresh) in
    find-append_none (λ d. d.id == row.id) db.devices (row ∷ []) old ∙ ground arith

-- An insertion that meets no other row succeeds.
pub insert_device_lem :
    (d : Device) (db : Db)
    → 1 ≤ d.d_index
    → d.d_index ≤ 254
    → any (λ (r : Device). str_eq r.device_id d.device_id) db.devices ≡ false
    → live_where (λ r. str_eq r.device_ip d.device_ip) db ≡ false
    → live_where (λ r. str_eq r.pubkey d.pubkey) db ≡ false
    → live_where (λ r. r.site_id == d.site_id && r.d_index == d.d_index) db ≡ false
    → insert_device d db
      ≡ ok (
        record db {
          devices = db.devices ++ record d { id = db.next_device } ∷ [];
          next_device = suc db.next_device;
        },
        record d { id = db.next_device },
      )
unfolding insert_device
insert_device_lem d db low high id ip key slot = ground arith
