-- ===== src/Dns/Labels.antt =====
-- The names of a zone.
use polar_wg.Errors.Ends.{returns, anything, Ends-or_fail, Ends-bind, Ends-ok}
use polar_wg.Store.Rows.{Hub}
use polar_wg.Net.Chars.{free_of-append, free_of}
use polar_wg.Dns.{
  cross_hub_query, require, no_rows, list_devices_in_hub, get_hub_by_id, code, is_label_char,
  DnsEntry, is_edge, ok, Zone, Device, Db, unique_label, squash, sanitize_hostname, host_label,
  dns_zone, dns_entries,
}
use polar_wg.Base.{
  if◌then◌else◌, ◌==◌, ◌||◌, ◌++◌, ◌%◌, [], some, append, trim_space, ◌/◌, str_eq, to_lower, ◌∷◌,
  map, any, ltb, false, is_empty, zero, arith, not, Bool-cases, ◌≡◌, suc, true, ◌≤◌, All, String,
  Bool, ℕ, List, trim_right, trim_left, trim, prefix, itoa, refl, inl, inr,
}
use polar_wg.Base.{itoa_fuel, digit}
use mathlib.Core.Path.{ap}

-- The text has label characters only.
abbrev pub is_label : String → Bool
is_label s = free_of (λ c. not (is_label_char c)) s

abbrev pub size : String → ℕ
size String.[] = 0
size (String.◌∷◌ c s) = suc (size s)

squash_label : (in_run : Bool) (s : String) → is_label (squash in_run s) ≡ true
unfolding squash
squash_label in_run String.[] = refl
squash_label in_run (String.◌∷◌ c s) = ground (arith, squash_label (not (is_label_char (code c))) s)

module _ (bad : ℕ → Bool) where
  trim_left-free_of :
      (p : ℕ → Bool) (s : String) → free_of bad s ≡ true → free_of bad (trim_left p s) ≡ true
  unfolding trim_left
  trim_left-free_of p String.[] h = h
  trim_left-free_of p (String.◌∷◌ c s) h = ground (arith, trim_left-free_of p s)

  trim_right-free_of :
      (p : ℕ → Bool) (s : String) → free_of bad s ≡ true → free_of bad (trim_right p s) ≡ true
  unfolding trim_right
  trim_right-free_of p String.[] h = h
  trim_right-free_of p (String.◌∷◌ c s) h = ground (arith, trim_right-free_of p s)

  prefix-free_of : (n : ℕ) (s : String) → free_of bad s ≡ true → free_of bad (prefix n s) ≡ true
  unfolding prefix
  prefix-free_of zero s h = refl
  prefix-free_of (suc n) String.[] h = h
  prefix-free_of (suc n) (String.◌∷◌ c s) h = ground (arith, prefix-free_of n s)

size-prefix : (n : ℕ) (s : String) → size (prefix n s) ≤ n
unfolding prefix
size-prefix zero s = omega arith
size-prefix (suc n) String.[] = omega arith
size-prefix (suc n) (String.◌∷◌ c s) = omega (arith, size-prefix n s)

-- The first character, if there is one, does not pass the test.
abbrev pub starts_off : (ℕ → Bool) → String → Bool
starts_off p String.[] = true
starts_off p (String.◌∷◌ c s) = not (p (code c))

starts_off-trim_left : (p : ℕ → Bool) (s : String) → starts_off p (trim_left p s) ≡ true
unfolding trim_left
starts_off-trim_left p String.[] = refl
starts_off-trim_left p (String.◌∷◌ c s) = ground (arith, starts_off-trim_left p s)

starts_off-trim_right :
    (p : ℕ → Bool) (s : String) → starts_off p s ≡ true → starts_off p (trim_right p s) ≡ true
unfolding trim_right
starts_off-trim_right p String.[] h = refl
starts_off-trim_right p (String.◌∷◌ c s) h = ground arith

starts_off-prefix :
    (p : ℕ → Bool) (n : ℕ) (s : String) → starts_off p s ≡ true → starts_off p (prefix n s) ≡ true
unfolding prefix
starts_off-prefix p zero s h = refl
starts_off-prefix p (suc n) String.[] h = refl
starts_off-prefix p (suc n) (String.◌∷◌ c s) h = h

-- A sanitized host name has only characters of a to z, 0 to 9, dash and dot, is no longer than
-- 63 characters and does not begin with a dash or a dot.
pub sanitize_hostname_lem :
    (raw : String)
    → (is_label (sanitize_hostname raw) ≡ true)
      × (size (sanitize_hostname raw) ≤ 63)
      × (starts_off is_edge (sanitize_hostname raw) ≡ true)
unfolding sanitize_hostname trim
sanitize_hostname_lem raw =
    let t = squash false (to_lower (trim_space raw)) in
    let bad : ℕ → Bool = λ c. not (is_label_char c) in
    (
      prefix-free_of bad 63 (trim is_edge t) (
          trim_right-free_of bad is_edge (trim_left is_edge t)
            (trim_left-free_of bad is_edge t (squash_label false (to_lower (trim_space raw))))),
      size-prefix 63 (trim is_edge t),
      starts_off-prefix is_edge 63 (trim is_edge t)
          (starts_off-trim_right is_edge (trim_left is_edge t) (starts_off-trim_left is_edge t)),
    )

either :
    (b : Bool) (s t : String)
    → is_label s ≡ true
    → is_label t ≡ true
    → is_label (if b then s else t) ≡ true
either true s t h k = h
either false s t h k = k

digit-is_label : (n : ℕ) → is_label (digit n) ≡ true
digit-is_label n = either (n == 0) "0" _ refl (
    either (n == 1) "1" _ refl (
      either (n == 2) "2" _ refl (
        either (n == 3) "3" _ refl (
          either (n == 4) "4" _ refl (
            either (n == 5) "5" _ refl (
              either (n == 6) "6" _ refl
                (either (n == 7) "7" _ refl (either (n == 8) "8" "9" refl refl))))))))

itoa_fuel-is_label : (f n : ℕ) → is_label (itoa_fuel f n) ≡ true
unfolding itoa_fuel
itoa_fuel-is_label zero n = refl
itoa_fuel-is_label (suc f) n = elim (Bool-cases (ltb n 10)) [
  | inl e ↦ rw e (digit-is_label n)
  | inr e ↦ rw e (
      free_of-append (λ c. not (is_label_char c)) (itoa_fuel f (n / 10)) (digit (n % 10))
        (itoa_fuel-is_label f (n / 10)) (digit-is_label (n % 10)))
]

itoa-is_label : (n : ℕ) → is_label (itoa n) ≡ true
unfolding itoa
itoa-is_label n = itoa_fuel-is_label (suc n) n

host_label-is_label : (d : Device) → is_label (host_label d) ≡ true
unfolding host_label
host_label-is_label d = elim (Bool-cases (is_empty (sanitize_hostname d.hostname))) [
  | inl e ↦
      rw e
        (free_of-append (λ c. not (is_label_char c)) "dev-" (itoa d.id) refl (itoa-is_label d.id))
  | inr e ↦ rw e ((sanitize_hostname_lem d.hostname).0)
]

unique_label-is_label : (seen : List String) (d : Device) → is_label (unique_label seen d) ≡ true
unfolding unique_label
unique_label-is_label seen d = elim (Bool-cases (any (str_eq (host_label d)) seen)) [
  | inr e ↦ rw e (host_label-is_label d)
  | inl e ↦ rw e (
      free_of-append (λ c. not (is_label_char c)) (host_label d) (append "-" (itoa d.id))
        (host_label-is_label d)
        (free_of-append (λ c. not (is_label_char c)) "-" (itoa d.id) refl (itoa-is_label d.id)))
]

dns_entries-is_label :
    (seen : List String) (ds : List Device)
    → All (λ (e : DnsEntry). is_label e.hostname ≡ true) (dns_entries seen ds)
      × (map (λ (e : DnsEntry). e.wg_ip) (dns_entries seen ds)
          ≡ map (λ (d : Device). d.device_ip) ds)
unfolding dns_entries
dns_entries-is_label seen [] = (tt, refl)
dns_entries-is_label seen (d ∷ ds) =
    let rest = dns_entries-is_label (unique_label seen d ∷ seen) ds in
    ((unique_label-is_label seen d, rest.0), ap (λ l. d.device_ip ∷ l) rest.1)

-- A zone that is served is that of the caller's hub; the name of each entry has only characters
-- of a to z, 0 to 9, dash and dot, and the addresses are, in order, those of the hub's live
-- devices and then the caller's.
pub dns_zone-entries :
    (db : Db) (d : Device) (slug : String) (z : Zone)
    → dns_zone db d slug ≡ ok z
    → (h : Hub) × (get_hub_by_id db d.hub_id ≡ some h)
      × (z.hub_slug ≡ h.slug)
      × All (λ (e : DnsEntry). is_label e.hostname ≡ true) z.entries
      × (map (λ (e : DnsEntry). e.wg_ip) z.entries
          ≡ map (λ (x : Device). x.device_ip) (list_devices_in_hub db h.id 0 ++ d ∷ []))
unfolding dns_zone
dns_zone-entries db d slug z done =
    Ends-ok Served (λ _. Unit) (dns_zone db d slug) z done
      (Ends-bind _
        (Ends-or_fail (λ (h : Hub). get_hub_by_id db d.hub_id ≡ some h) (λ _. Unit)
          (get_hub_by_id db d.hub_id) no_rows (λ _. tt) (λ h e. e))
        λ h row.
          Ends-bind _
            (anything (
              require (is_empty (trim_space slug) || str_eq (trim_space slug) h.slug)
                cross_hub_query))
            λ _ _.
              let e = dns_entries-is_label [] (list_devices_in_hub db h.id 0 ++ d ∷ []) in
              returns _ (h, row, refl, e.0, e.1))
  where
    Served : Zone → Type 0
    Served z =
        (h : Hub) × (get_hub_by_id db d.hub_id ≡ some h)
        × (z.hub_slug ≡ h.slug)
        × All (λ (e : DnsEntry). is_label e.hostname ≡ true) z.entries
        × (map (λ (e : DnsEntry). e.wg_ip) z.entries
            ≡ map (λ (x : Device). x.device_ip) (list_devices_in_hub db h.id 0 ++ d ∷ []))
