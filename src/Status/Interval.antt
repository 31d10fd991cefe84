-- ===== src/Status/Interval.antt =====
-- The intervals that are read from variables.
use polar_wg.Status.{atoi, clamped, Parsed, poll_interval}
use polar_wg.Base.{none, arith, some, is_empty, Bool-cases, ◌≤◌, Option, String, ℕ, inl, inr}

clamped-bounds :
    (default low high : ℕ) (p : Option Parsed)
    → low ≤ default
    → default ≤ high
    → (low ≤ clamped default low high p) × (clamped default low high p ≤ high)
clamped-bounds default low high none h k = (h, k)
clamped-bounds default low high (some p) h k = ground arith

-- A poll interval is between five seconds and three hundred.
pub poll_interval-bounds : (v : String) → (5 ≤ poll_interval v) × (poll_interval v ≤ 300)
unfolding poll_interval
poll_interval-bounds v = elim (Bool-cases (is_empty v)) [
  | inl e ↦ rw e (omega arith, omega arith)
  | inr e ↦ rw e (clamped-bounds 30 5 300 (atoi v) (omega arith) (omega arith))
]
