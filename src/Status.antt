-- ===== src/Status.antt =====
-- The live state of the hubs: the cache of internal/wg/hub_status_poll.go with its intervals, and the
-- variables of internal/wg/gc.go. The payload of a sample is opaque to the cache; the type of it is a
-- parameter. The rounds of polls are in Poll, the answer of the status page in Entry and Rows.
pub mod Cache
pub mod Interval
pub mod Poll
pub mod Rounds
pub mod Entry
pub mod Rows
pub mod Live
use polar_wg.Store.Devices.{list_devices_in_hub}
use Prim.Native.Char.{code}
use polar_wg.Store.Rows.{is_live, Hub, Db, Device}
use polar_wg.Base.{
  ◌*◌, duration, false, parse_decimal, ◌^◌, ◌&&◌, select, ◌-◌, [], map, ltb, not, trim_space,
  str_eq, ◌||◌, ◌==◌, leb, some, is_empty, true, to_lower, ◌∷◌, String, none, Bool, List, Option, ℕ,
  if◌then◌else◌,
}

-- wgHubStatusSample; a time that is zero is `none`.
pub record Sample {ℓ} (D : Type ℓ) : Type ℓ where
  pub host_id : String
  pub iface : String
  pub iface_public_key : String
  pub run_id : ℕ
  pub recorded_at : Option ℕ
  pub payload : D

-- The map of hubStatusCache, as a function from keys.
abbrev pub Entries {ℓ} : Type ℓ → Type ℓ
Entries D = String → Option (Sample D)

abbrev or_now : ℕ → Option ℕ → Option ℕ
or_now now none = some now
or_now now (some t) = some t

abbrev pub age_above : ℕ → ℕ → Option ℕ → Bool
age_above ttl now none = true
age_above ttl now (some t) = ltb ttl (now - t)

module _ {ℓ} {D : Type ℓ} where
  abbrev pub no_entries : Entries D
  no_entries key = none

  abbrev pub stamped : ℕ → Sample D → Sample D
  stamped now s = record s { recorded_at = or_now now s.recorded_at }

  -- upsert
  unfoldable pub upsert : ℕ → Sample D → Entries D → Entries D
  upsert now s entries key =
      if is_empty s.iface_public_key
      then entries key
      else if str_eq s.iface_public_key key
      then some (stamped now s)
      else entries key

  -- The loop of replace.
  unfoldable pub upsert_all : ℕ → List (Sample D) → Entries D → Entries D
  upsert_all now [] entries = entries
  upsert_all now (s ∷ samples) entries = upsert_all now samples (upsert now s entries)

  -- replace: the new map takes the place of the old one.
  unfoldable pub replace : ℕ → List (Sample D) → Entries D → Entries D
  replace now samples entries = upsert_all now samples no_entries

  abbrev pub with_age : ℕ → ℕ → Option (Sample D) → Option (Sample D × Bool)
  with_age ttl now none = none
  with_age ttl now (some s) = some (s, age_above ttl now s.recorded_at)

  -- lookup: the sample and whether it is stale.
  unfoldable pub lookup : ℕ → ℕ → String → Entries D → Option (Sample D × Bool)
  lookup ttl now key entries = if is_empty key then none else with_age ttl now (entries key)

-- strconv.Atoi, where it succeeds: an optional sign and digits, within 64 bits. The sign is kept apart.
pub record Parsed : Type 0 where
  pub negative : Bool
  pub magnitude : ℕ

abbrev in_range : Bool → Option ℕ → Option Parsed
in_range neg none = none
in_range neg (some n) =
    if if neg then leb n (2 ^ 63) else ltb n (2 ^ 63)
    then some (record { negative = neg; magnitude = n })
    else none

unfoldable pub atoi : String → Option Parsed
atoi String.[] = none
atoi (String.◌∷◌ c s) =
    if code c == b'-'
    then in_range true (parse_decimal s)
    else if code c == b'+'
    then in_range false (parse_decimal s)
    else in_range false (parse_decimal (String.◌∷◌ c s))

abbrev pub clamped : ℕ → ℕ → ℕ → Option Parsed → ℕ
clamped default low high none = default
clamped default low high (some p) =
    if p.negative || ltb p.magnitude low
    then default
    else if ltb high p.magnitude
    then high
    else p.magnitude

-- hubStatusPollInterval and hubLocalPollInterval, in seconds, of the variable's text.
unfoldable pub poll_interval : String → ℕ
poll_interval v = if is_empty v then 30 else clamped 30 5 300 (atoi v)

-- freshTTL of newHubStatusCache at the start of the polls, in nanoseconds: two intervals.
unfoldable pub fresh_ttl : String → ℕ
unfolding poll_interval
fresh_ttl v = 2 * (poll_interval v * 1000000000)

abbrev positive_or : ℕ → Option Parsed → ℕ
positive_or default none = default
positive_or default (some p) = if not p.negative && ltb 0 p.magnitude then p.magnitude else default

-- envIntDefault
unfoldable pub env_int_default : String → ℕ → ℕ
env_int_default v default = if is_empty v then default else positive_or default (atoi v)

abbrev hours_or : Option Parsed → ℕ
hours_or none = 604800000000000
hours_or (some p) =
    if not p.negative && ltb 0 p.magnitude
    then duration p.magnitude 3600000000000
    else 604800000000000

-- wgStaleDeviceTTL
unfoldable pub stale_device_ttl : String → ℕ
stale_device_ttl v = if is_empty v then 604800000000000 else hours_or (atoi v)

abbrev minutes_or : Option Parsed → ℕ
minutes_or none = 3600000000000
minutes_or (some p) =
    if not p.negative && ltb 0 p.magnitude then duration p.magnitude 60000000000 else 3600000000000

-- wgStaleGCInterval
unfoldable pub stale_gc_interval : String → ℕ
stale_gc_interval v = if is_empty v then 3600000000000 else minutes_or (atoi v)

-- wgStaleGCEnabled
unfoldable pub stale_gc_enabled : String → Bool
stale_gc_enabled v =
    let s = to_lower (trim_space v) in
    str_eq s "1" || (str_eq s "true" || (str_eq s "yes" || str_eq s "on"))
