-- ===== src/Steps/Sweeper.antt =====
-- The sweeper's loop as part of the machine.
use polar_wg.Steps.Machine.{swept, next, Reachable}
use polar_wg.Store.Rows.{Db}
use polar_wg.Net.{World}
use polar_wg.Gc.Loop.{Turns, gc_at}
use polar_wg.Base.{leb, Bool-cases, ℕ, inl, inr}

-- At each moment at which the sweeper looks at a database that has been reached, it leaves one that
-- has been reached, whether its timer has fired or not.
gc_at-Reachable :
    (w : World) (t : Turns) (now : ℕ) (db : Db)
    → Reachable w db
    → Reachable w (gc_at t (now, db)).db
unfolding gc_at
gc_at-Reachable w t now db r = elim (Bool-cases (leb t.sweeper.due now)) [
  | inl e ↦ rw e (next r (swept now t.sweeper.ttl))
  | inr e ↦ rw e r
]
