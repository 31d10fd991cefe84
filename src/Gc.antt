-- ===== src/Gc.antt =====
-- The sweep over stale devices: `sweepStaleWGDevices` of internal/wg/gc.go. Times are numbers of
-- nanoseconds.
pub mod Sweep
pub mod Loop
pub mod Overflow
use polar_wg.Store.Hubs.{unbind}
use polar_wg.Store.Rows.{Hub, is_live, Db, Device}
use polar_wg.Base.{
  ◌%◌, ◌^◌, time_add, none, some, is_some_of, some, ltb, length, [], ◌==◌, ◌-◌, ◌&&◌, update_where,
  ◌∷◌, select, List, Bool, ℕ, if◌then◌else◌,
}

abbrev pub last_sign : Device → ℕ
last_sign d = elim d.last_seen_at [ none ↦ d.created_at | some t ↦ t ]

unfoldable pub is_stale : ℕ → Device → Bool
is_stale cutoff d = is_live d && ltb (last_sign d) cutoff

-- UPDATE wg_devices SET removed_at = now() WHERE id = $1 AND removed_at IS NULL, and
-- UPDATE wg_hubs … WHERE bound_device_id = $1
unfoldable pub remove_victim : ℕ → ℕ → Db → Db
remove_victim now id db = record db {
  devices =
      update_where (λ (d : Device). d.id == id && is_live d)
        (λ d. record d { removed_at = some now }) db.devices;
  hubs = update_where (λ (h : Hub). is_some_of h.bound_device_id id) (unbind now) db.hubs;
}

unfoldable pub remove_victims : ℕ → List Device → Db → Db
remove_victims now [] db = db
remove_victims now (d ∷ victims) db = remove_victims now victims (remove_victim now d.id db)

-- time.Now().UTC().Add(-ttl), with the negation in 64 bits.
unfoldable pub cutoff_of : ℕ → ℕ → ℕ
unfolding time_add
cutoff_of now ttl = time_add now ((2 ^ 64 - ttl) % 2 ^ 64)

unfoldable pub sweep : ℕ → ℕ → Db → Db × ℕ
unfolding cutoff_of
sweep now ttl db =
    let victims = select (is_stale (cutoff_of now ttl)) db.devices in
    (remove_victims now victims db, length victims)
