-- ===== src/Gc/Overflow.antt =====
-- The sweep where the time to live has overflowed.
use Prim.Native.Char.{code}
use mathlib.Core.Path.{sym, subst}
use polar_wg.Status.{stale_device_ttl, atoi}
use polar_wg.Gc.Sweep.{sweep-fresh}
use polar_wg.Gc.{
  is_stale, sweep, is_live, last_sign, remove_victim, remove_victims, Db, Device, cutoff_of,
}
use polar_wg.Base.{
  parse_decimal-itoa, refl, itoa_digits, itoa_not_empty, true, ltb, is_digit, ◌%◌, made_of, String,
  ◌*◌, itoa, parse_decimal, duration, select, [], All-zip, ◌&&◌, ◌==◌, false, ◌≡◌, All-update_where,
  ◌∷◌, List, ◌≤◌, arith, All, ◌<◌, ◌^◌, ℕ, time_add, some,
}

module _ (now bound : ℕ) where
  abbrev SeenBy : Device → Type 0
  SeenBy d = last_sign d ≤ bound

  remove_victims-SeenBy :
      (vs : List Device) (db : Db)
      → All SeenBy db.devices
      → All SeenBy (remove_victims now vs db).devices
  unfolding remove_victims remove_victim
  remove_victims-SeenBy [] db h = h
  remove_victims-SeenBy (v ∷ vs) db h = remove_victims-SeenBy vs (remove_victim now v.id db) (
      All-update_where SeenBy SeenBy (λ (d : Device). d.id == v.id && is_live d)
        (λ d. record d { removed_at = some now }) (λ x e k. k) (λ x e k. k) db.devices h)

cutoff_above : (now ttl : ℕ) → 2 ^ 63 < ttl → ttl < 2 ^ 64 → now < cutoff_of now ttl
unfolding cutoff_of time_add
cutoff_above now ttl low high = ground arith

fresh_removed :
    (now cutoff : ℕ) (d : Device)
    → last_sign d ≤ now
    → is_stale cutoff d ≡ false
    → now < cutoff
    → is_live d ≡ false
unfolding is_stale
fresh_removed now cutoff d seen fresh later = ground arith

sweep-negative_ttl :
    (now ttl : ℕ) (db : Db)
    → 2 ^ 63 < ttl
    → ttl < 2 ^ 64
    → All (λ (d : Device). last_sign d ≤ now) db.devices
    → All (λ (d : Device). is_live d ≡ false) (sweep now ttl db).0.devices
unfolding sweep
sweep-negative_ttl now ttl db low high seen =
    let later : now < cutoff_of now ttl = cutoff_above now ttl low high in
    All-zip (SeenBy now now) (λ (d : Device). is_stale (cutoff_of now ttl) d ≡ false)
      (λ (d : Device). is_live d ≡ false)
      (λ d s f. fresh_removed now (cutoff_of now ttl) d s f later) (sweep now ttl db).0.devices
      (remove_victims-SeenBy now now (select (is_stale (cutoff_of now ttl)) db.devices) db seen)
      (sweep-fresh now ttl db).0

empty_unread : (n : ℕ) → parse_decimal "" ≡ some n → ⊥
unfolding parse_decimal
empty_unread n e = cc

atoi_digits :
    (s : String) (n : ℕ)
    → made_of is_digit s ≡ true
    → parse_decimal s ≡ some n
    → ltb n (2 ^ 63) ≡ true
    → atoi s ≡ some (record { negative = false; magnitude = n })
unfolding atoi
atoi_digits String.[] n h e k = absurd (empty_unread n e)
atoi_digits (String.◌∷◌ c s) n h e k =
    let minus : (code c == b'-') ≡ false = ground arith in
    let plus : (code c == b'+') ≡ false = ground arith in rw (minus, plus, e, k) refl

-- A number of hours as the variable's text gives the time to live that is its product in 64 bits.
ttl_text :
    (hours : ℕ)
    → 0 < hours
    → hours < 2 ^ 63
    → stale_device_ttl (itoa hours) ≡ hours * 3600000000000 % 2 ^ 64
unfolding stale_device_ttl duration
ttl_text hours pos small =
    let low : ltb hours (2 ^ 63) ≡ true = ground arith in
    let above : ltb 0 hours ≡ true = ground arith in
    rw
      (
        itoa_not_empty hours,
        atoi_digits (itoa hours) hours (itoa_digits hours) (parse_decimal-itoa hours) low,
        above,
      )
      refl

-- Where the hours of the stale-device variable are a positive number below 2 ^ 63 whose product
-- with the nanoseconds of an hour is above 2 ^ 63 modulo 2 ^ 64, and no device has given a sign
-- of life after now, a sweep with the time to live that is read from the variable leaves no
-- device live.
pub overflowing_ttl_empties :
    (now hours : ℕ) (db : Db)
    → 0 < hours
    → hours < 2 ^ 63
    → 2 ^ 63 < hours * 3600000000000 % 2 ^ 64
    → All (λ (d : Device). last_sign d ≤ now) db.devices
    → All
        (λ (d : Device). is_live d ≡ false)
        (sweep now (stale_device_ttl (itoa hours)) db).0.devices
overflowing_ttl_empties now hours db pos small big seen =
    subst (λ ttl. All (λ (d : Device). is_live d ≡ false) (sweep now ttl db).0.devices)
      (sym (ttl_text hours pos small))
      (sweep-negative_ttl now (hours * 3600000000000 % 2 ^ 64) db big (omega arith) seen)
