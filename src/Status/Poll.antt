-- ===== src/Status/Poll.antt =====
-- The rounds of polls that fill the cache: `fetchHubStatusOnce`, `decodeHubStatusSample`,
-- `parseHubStatusTime` and `hubStatusPollLoop` of internal/wg/hub_status_poll.go. What dock answers,
-- the decoding of JSON and time.Parse are parameters; times are numbers of nanoseconds.
use polar_wg.Dump.{cons_some}
use polar_wg.Status.{no_entries, Sample, Entries, replace}
use polar_wg.Base.{
  ◌-◌, not, ◌==◌, false, leb, ◌∷◌, ◌&&◌, is_empty, true, ◌/◌, [], String, Bool, Option, ℕ, List,
  if◌then◌else◌, none, some,
}

-- The loosely typed struct that a sample is decoded into.
pub record Loose {ℓ} (D : Type ℓ) : Type ℓ where
  pub host_id : String
  pub iface : String
  pub iface_public_key : String
  pub run_id : ℕ
  pub recorded_at : String
  pub payload : D

-- How a call of dock ends: with an error, or with a status and a body.
pub data Answer {ℓ} (B : Type ℓ) : Type ℓ where
  failed : Answer B
  responded : ℕ → B → Answer B

-- encoding/json on the two structs, and time.Parse of a layout and a text; of a time, `none` is the
-- zero time.
pub record Decoding {ℓ} (B R D : Type ℓ) : Type ℓ where
  pub samples_of : B → Option (List R)
  pub loose_of : R → Option (Loose D)
  pub parse_time : String → String → Option (Option ℕ)

abbrev or_else {ℓ} : {A : Type ℓ} → Option A → Option A → Option A
or_else none other = other
or_else (some a) other = some a

-- resp.StatusCode/100 == 2
unfoldable pub is_success : ℕ → Bool
is_success status = status / 100 == 2

-- What a fetch leaves: whether dock answered 404, and the cache.
pub record Fetched {ℓ} (D : Type ℓ) : Type ℓ where
  pub not_found : Bool
  pub entries : Entries D

-- hubStatusPollLoop: lastNotFoundLog, the times at which a 404 was logged, the last one first, and
-- the cache.
pub record Poll {ℓ} (D : Type ℓ) : Type ℓ where
  pub last_not_found_log : Option ℕ
  pub logged : List ℕ
  pub entries : Entries D

-- hubStatusNotFoundLogInterval
abbrev pub log_interval : ℕ
log_interval = 60000000000

-- time.Since(lastNotFoundLog) >= hubStatusNotFoundLogInterval
abbrev pub log_due : ℕ → Option ℕ → Bool
log_due now none = true
log_due now (some t) = leb log_interval (now - t)

abbrev time_or_now : ℕ → Option (Option ℕ) → Option ℕ
time_or_now now none = some now
time_or_now now (some t) = t

module _ {ℓ} {B R D : Type ℓ} (dec : Decoding B R D) where
  -- parseHubStatusTime
  unfoldable pub parse_status_time : String → Option (Option ℕ)
  parse_status_time s =
      if is_empty s
      then none
      else or_else (dec.parse_time "2006-01-02T15:04:05.000Z" s) (
          or_else (dec.parse_time "2006-01-02T15:04:05.999999999Z07:00" s)
            (dec.parse_time "2006-01-02T15:04:05Z07:00" s))

  abbrev loose_sample : ℕ → Option (Loose D) → Option (Sample D)
  loose_sample now none = none
  loose_sample now (some l) = some (record {
    host_id = l.host_id;
    iface = l.iface;
    iface_public_key = l.iface_public_key;
    run_id = l.run_id;
    recorded_at = time_or_now now (parse_status_time l.recorded_at);
    payload = l.payload;
  })

  -- decodeHubStatusSample
  unfoldable pub decode_sample : ℕ → R → Option (Sample D)
  unfolding parse_status_time
  decode_sample now raw = loose_sample now (dec.loose_of raw)

  unfoldable pub decode_samples : ℕ → List R → List (Sample D)
  unfolding decode_sample
  decode_samples now [] = []
  decode_samples now (raw ∷ raws) = cons_some (decode_sample now raw) (decode_samples now raws)

  abbrev decoded : ℕ → Entries D → Option (List R) → Fetched D
  decoded now entries none = record { not_found = false; entries = entries }
  decoded now entries (some raws) = record {
    not_found = false;
    entries = replace now (decode_samples now raws) entries;
  }

  -- fetchHubStatusOnce; `none` for a plugin without dock.
  unfoldable pub fetch_once : ℕ → Option (Answer B) → Entries D → Fetched D
  unfolding decode_samples replace is_success
  fetch_once now none entries = record { not_found = false; entries = entries }
  fetch_once now (some failed) entries = record { not_found = false; entries = entries }
  fetch_once now (some (responded status body)) entries =
      if status == 404
      then record { not_found = true; entries = entries }
      else if not (is_success status)
      then record { not_found = false; entries = entries }
      else decoded now entries (dec.samples_of body)

  -- A tick of the loop; the log line is written at the time of the fetch.
  unfoldable pub poll_tick : ℕ → Option (Answer B) → Poll D → Poll D
  unfolding fetch_once
  poll_tick now answer p =
      let r = fetch_once now answer p.entries in
      if r.not_found && log_due now p.last_not_found_log
      then record { last_not_found_log = some now; logged = now ∷ p.logged; entries = r.entries }
      else record p { entries = r.entries }

  -- The fetch before the first tick: its 404 is not logged.
  unfoldable pub poll_start : ℕ → Option (Answer B) → Poll D
  unfolding fetch_once
  poll_start now answer = record {
    last_not_found_log = none;
    logged = [];
    entries = (fetch_once now answer no_entries).entries;
  }

  unfoldable pub poll_ticks : List (ℕ × Option (Answer B)) → Poll D → Poll D
  unfolding poll_tick
  poll_ticks [] p = p
  poll_ticks ((now, answer) ∷ later) p = poll_ticks later (poll_tick now answer p)

  -- The loop, from the fetch at its start.
  unfoldable pub poll_loop : ℕ → Option (Answer B) → List (ℕ × Option (Answer B)) → Poll D
  unfolding poll_start poll_ticks
  poll_loop now answer later = poll_ticks later (poll_start now answer)
