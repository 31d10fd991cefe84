-- ===== src/Status/Live.antt =====
-- What the page of hub statuses shows of a live sample.
use polar_wg.Status.Rows.{stamped_sample, hub_status, shared_peers}
use polar_wg.Status.{age_above, Hub, Db, Entries, lookup, Sample}
use polar_wg.Store.Rows.{Device}
use polar_wg.Base.{
  arith, false, is_empty, ◌∙◌, str_eq_iff, Bool, Bool-cases, true, ◌≡◌, List, str_eq, ℕ, String,
  Option, if◌then◌else◌, none, some, inl, inr, refl,
}
use polar_wg.Status.Entry.{
  text_at, Payload, items_at, host_id_of, is_known, extra_of, Entry, set_field, build_entry,
  get_field, stamp_peer, enrich, end, field, nil, cons, text, object, array, Json, Items, Fields,
}
use mathlib.Core.Path.{ap}

str_eq_refl : (s : String) → str_eq s s ≡ true
str_eq_refl s = (str_eq_iff s s).1 refl

module _ {N : Type 0} where
  get_field-extra_of :
      (key : String) (fs : Fields N)
      → get_field key (extra_of fs) ≡ (if is_known key then none else get_field key fs)
  unfolding get_field extra_of
  get_field-extra_of key end = elim (Bool-cases (is_known key)) [
    | inl e ↦ rw e refl
    | inr e ↦ rw e refl
  ]
  get_field-extra_of key (field k v fs) = elim (Bool-cases (str_eq k key)) [
    | inl same ↦
        let known : is_known k ≡ is_known key = ap is_known ((str_eq_iff k key).0 same) in
        elim (Bool-cases (is_known key)) [
          | inl e ↦ rw (known, e) (rw e at (get_field-extra_of key fs))
          | inr e ↦ rw (known, e, same) refl
        ]
    | inr other ↦ elim (Bool-cases (is_known k)) [
      | inl e ↦ rw (e, other) (get_field-extra_of key fs)
      | inr e ↦ rw (e, other) (get_field-extra_of key fs)
    ]
  ]

  get_field-set_field :
      (key : String) (v : Json N) (fs : Fields N) → get_field key (set_field key v fs) ≡ some v
  unfolding get_field set_field
  get_field-set_field key v end = rw (str_eq_refl key) refl
  get_field-set_field key v (field k w fs) = elim (Bool-cases (str_eq k key)) [
    | inl e ↦ rw (e, e) refl
    | inr e ↦ rw (e, e) (get_field-set_field key v fs)
  ]

  peers_shared :
      (devices : List Device) (o : Option (Json N)) (fs : Fields N)
      → get_field "peers" fs ≡ o
      → items_at (get_field "peers" (shared_peers devices o fs)) ≡ enrich devices (items_at o)
  unfolding enrich
  peers_shared devices none fs e = rw e refl
  peers_shared devices (some Json.null) fs e = rw e refl
  peers_shared devices (some (Json.truth b)) fs e = rw e refl
  peers_shared devices (some (Json.number n)) fs e = rw e refl
  peers_shared devices (some (text s)) fs e = rw e refl
  peers_shared devices (some (array vs)) fs e = ap items_at (get_field-set_field "peers" _ fs)
  peers_shared devices (some (object gs)) fs e = rw e refl

  stamp_peer-none :
      (devices : List Device) (v : Json N)
      → ((key : String) → host_id_of devices key ≡ none)
      → stamp_peer devices v ≡ v
  unfolding stamp_peer
  stamp_peer-none devices Json.null h = refl
  stamp_peer-none devices (Json.truth b) h = refl
  stamp_peer-none devices (Json.number n) h = refl
  stamp_peer-none devices (text s) h = refl
  stamp_peer-none devices (array vs) h = refl
  stamp_peer-none devices (object fs) h = rw (h (text_at (get_field "public_key" fs))) refl

  enrich-none :
      (devices : List Device) (vs : Items N)
      → ((key : String) → host_id_of devices key ≡ none)
      → enrich devices vs ≡ vs
  unfolding enrich
  enrich-none devices nil h = refl
  enrich-none devices (cons v vs) h =
      ap (λ x. cons x (enrich devices vs)) (stamp_peer-none devices v h)
      ∙ ap (cons v) (enrich-none devices vs h)

  -- The peers of an entry, none without an entry.
  abbrev pub peers_of : Option (Entry N) → Items N
  peers_of none = nil
  peers_of (some e) = e.peers

module _ {N : Type 0} (int_of : N → ℕ) where
  -- Of a sample's payload the extra map of the entry has every field that is none of the entry's own,
  -- with its value, and no other.
  build_entry-extra :
      (s : Sample (Payload N)) (stale : Bool) (fs : Fields N) (key : String)
      → s.payload ≡ some fs
      → get_field key (build_entry int_of s stale).extra
        ≡ (if is_known key then none else get_field key fs)
  unfolding build_entry
  build_entry-extra s stale fs key e =
      ap (λ p. get_field key (build_entry int_of (record s { payload = p }) stale).extra) e
      ∙ get_field-extra_of key fs

  build_entry-peers :
      (devices : List Device) (s : Sample (Payload N)) (first second : Bool)
      → (build_entry int_of (stamped_sample devices s) second).peers
        ≡ enrich devices (build_entry int_of s first).peers
  unfolding build_entry enrich
  build_entry-peers devices s first second = with_payload s.payload
    where
      with_payload :
          (p : Payload N)
          → (build_entry int_of (stamped_sample devices (record s { payload = p })) second).peers
            ≡ enrich devices (build_entry int_of (record s { payload = p }) first).peers
      with_payload none = refl
      with_payload (some fs) = peers_shared devices (get_field "peers" fs) fs refl

  lookup_found :
      (ttl now : ℕ) (key : String) (entries : Entries (Payload N)) (s : Sample (Payload N))
      (stale : Bool)
      → lookup ttl now key entries ≡ some (s, stale)
      → is_empty key ≡ false
  unfolding lookup
  lookup_found ttl now key entries s stale e = elim (Bool-cases (is_empty key)) [
    | inl f ↦ absurd (ground (arith, rw f at e))
    | inr f ↦ f
  ]

  -- The host ids that the page of hub statuses writes into the peers of a live sample stay in
  -- the cache: where a hub's key has a sample, and later no device has a host any more, the page
  -- then shows the peers that the earlier call has stamped.
  pub stamped_hosts_stay :
      (ttl now later : ℕ) (db after : Db) (h : Hub) (entries : Entries (Payload N))
      (s : Sample (Payload N)) (stale : Bool)
      → lookup ttl now h.pubkey entries ≡ some (s, stale)
      → ((key : String) → host_id_of after.devices key ≡ none)
      → peers_of (hub_status int_of ttl later after h (hub_status int_of ttl now db h entries).1).0
        ≡ enrich db.devices (build_entry int_of s stale).peers
  unfolding hub_status
  stamped_hosts_stay ttl now later db after h entries s stale e none_left =
      rw (hub_status, e, lookup_found ttl now h.pubkey entries s stale e, str_eq_refl h.pubkey)
        (enrich-none after.devices _ none_left
          ∙ build_entry-peers db.devices s stale (age_above ttl later s.recorded_at))
