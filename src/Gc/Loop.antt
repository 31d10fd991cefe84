-- ===== src/Gc/Loop.antt =====
-- The loop around the sweep: `startWGStaleDeviceGC` of internal/wg/gc.go. Between two turns other
-- requests write the database, so each turn is given the database that it finds.
use polar_wg.Gc.{Db, sweep}
use polar_wg.Status.{stale_gc_interval, stale_gc_enabled, stale_device_ttl}
use polar_wg.Base.{
  ◌+◌, [], not, ◌∷◌, leb, Option, Bool, ℕ, String, List, time_add, if◌then◌else◌, none, some,
}

-- The variables that the sweeper reads.
pub record Settings : Type 0 where
  pub enabled : String
  pub ttl_hours : String
  pub interval_minutes : String

-- The sweeper as it has been started: its time to live, its interval and when its timer fires.
pub record Sweeper : Type 0 where
  pub ttl : ℕ
  pub interval : ℕ
  pub due : ℕ

-- startWGStaleDeviceGC: nothing without a database or unless it is enabled; the first turn is two
-- minutes after the start.
unfoldable pub start_gc : Bool → Settings → ℕ → Option Sweeper
unfolding stale_gc_enabled stale_device_ttl stale_gc_interval time_add
start_gc has_db s now =
    if not has_db
    then none
    else if not (stale_gc_enabled s.enabled)
    then none
    else some (record {
      ttl = stale_device_ttl s.ttl_hours;
      interval = stale_gc_interval s.interval_minutes;
      due = now + 120000000000;
    })

-- The sweeper, the database and how many devices each turn has removed, the last turn first.
pub record Turns : Type 0 where
  pub sweeper : Sweeper
  pub db : Db
  pub removed : List ℕ

-- At a time with the database as it then is: a turn if the timer has fired, and the timer set anew.
unfoldable pub gc_at : Turns → ℕ × Db → Turns
unfolding sweep time_add
gc_at t (now, db) =
    if leb t.sweeper.due now
    then record {
      sweeper = record t.sweeper { due = time_add now t.sweeper.interval };
      db = (sweep now t.sweeper.ttl db).0;
      removed = (sweep now t.sweeper.ttl db).1 ∷ t.removed;
    }
    else record t { db = db }

unfoldable pub gc_loop : Turns → List (ℕ × Db) → Turns
unfolding gc_at
gc_loop t [] = t
gc_loop t (moment ∷ moments) = gc_loop (gc_at t moment) moments
