-- ===== src/Pipeline/Shown.antt =====
-- What the page of hub statuses shows of what a hub's own poll has pushed.
use polar_wg.Status.Live.{peers_of}
use polar_wg.Status.{lookup, Entries, Sample}
use polar_wg.Status.Rows.{with_hosts, hub_status}
use polar_wg.Wgctl.Peers.{parse_wgctl_show-peers_by_header, peers_by_header}
use polar_wg.Wgctl.Fields.{Scaled}
use polar_wg.Net.{World}
use polar_wg.Wgctl.{CtlPeer}
use polar_wg.Store.Rows.{Hub, Db, Device}
use polar_wg.Pipeline.{peer_data, ctl_peer_data, items_of, Push, push_data}
use polar_wg.Dump.{PeerSample}
use polar_wg.Base.{
  some_inj, trim_space, Bool, is_empty, split, str_eq_iff, ◌∙◌, Bool-cases, false, ◌≡◌, str_eq, map,
  String, Option, ℕ, List, none, some, inl, inr, refl, ◌∷◌, [],
}
use polar_wg.Status.Entry.{
  Payload, build_entry, stamp_host, host_id_of, items_at, text_at, stamp_peer, set_field, enrich,
  get_field, end, field, nil, cons, text, object, array, Json, Items, Fields,
}
use polar_wg.Selfpoll.{
  wg, read_tool, pushed, Flavor, run_tool, wgctl, Machine, Started, self_poll_once, Report, of_ctl,
  of_dump,
}
use mathlib.Core.Path.{subst, sym, ap}

module _ {N : Type 0} where
  -- The keys of the peers that are objects.
  abbrev pub keys_of : Items N → List String
  keys_of nil = []
  keys_of (cons (object fs) vs) = text_at (get_field "public_key" fs) ∷ keys_of vs
  keys_of (cons Json.null vs) = keys_of vs
  keys_of (cons (Json.truth b) vs) = keys_of vs
  keys_of (cons (Json.number n) vs) = keys_of vs
  keys_of (cons (text s) vs) = keys_of vs
  keys_of (cons (array xs) vs) = keys_of vs

  -- Writing one field leaves the others.
  get_field-other :
      (key other : String) (v : Json N) (fs : Fields N)
      → str_eq key other ≡ false
      → get_field other (set_field key v fs) ≡ get_field other fs
  unfolding get_field set_field
  get_field-other key other v end h = rw h refl
  get_field-other key other v (field k w fs) h = elim (Bool-cases (str_eq k key)) [
    | inl e ↦
        let apart : str_eq k other ≡ false =
          subst (λ x. str_eq x other ≡ false) (sym ((str_eq_iff k key).0 e)) h in
        rw (e, apart) refl
    | inr e ↦ elim (Bool-cases (str_eq k other)) [
      | inl f ↦ rw (e, f) refl
      | inr f ↦ rw (e, f) (get_field-other key other v fs h)
    ]
  ]

  stamp_host-key :
      (fs : Fields N) (o : Option String)
      → get_field "public_key" (stamp_host fs o) ≡ get_field "public_key" fs
  stamp_host-key fs none = refl
  stamp_host-key fs (some hid) = get_field-other "host_id" "public_key" (text hid) fs refl

  keys_of-enrich : (devices : List Device) (vs : Items N) → keys_of (enrich devices vs) ≡ keys_of vs
  unfolding enrich stamp_peer
  keys_of-enrich devices nil = refl
  keys_of-enrich devices (cons (object fs) vs) =
      ap (λ o. text_at o ∷ keys_of (enrich devices vs))
        (stamp_host-key fs (host_id_of devices (text_at (get_field "public_key" fs))))
      ∙ ap (λ l. text_at (get_field "public_key" fs) ∷ l) (keys_of-enrich devices vs)
  keys_of-enrich devices (cons Json.null vs) = keys_of-enrich devices vs
  keys_of-enrich devices (cons (Json.truth b) vs) = keys_of-enrich devices vs
  keys_of-enrich devices (cons (Json.number n) vs) = keys_of-enrich devices vs
  keys_of-enrich devices (cons (text s) vs) = keys_of-enrich devices vs
  keys_of-enrich devices (cons (array xs) vs) = keys_of-enrich devices vs

-- The keys of the peers that a parser has read.
abbrev pub report_keys : Report → List String
report_keys (of_ctl d) = map (λ (p : CtlPeer). p.public_key) d.peers
report_keys (of_dump d) = map (λ (p : PeerSample). p.public_key) d.peers

module _ {N : Type 0} (num : ℕ → N) (time_text : ℕ → String) where
  keys_of-ctl :
      (peers : List CtlPeer)
      → keys_of (items_of (ctl_peer_data num) peers) ≡ map (λ (p : CtlPeer). p.public_key) peers
  unfolding get_field
  keys_of-ctl [] = refl
  keys_of-ctl (p ∷ peers) = ap (λ l. p.public_key ∷ l) (keys_of-ctl peers)

  keys_of-dump :
      (peers : List PeerSample)
      → keys_of (items_of (peer_data num) peers) ≡ map (λ (p : PeerSample). p.public_key) peers
  unfolding get_field
  keys_of-dump [] = refl
  keys_of-dump (p ∷ peers) = ap (λ l. p.public_key ∷ l) (keys_of-dump peers)

  keys_of-push_data :
      (now : ℕ) (p : Push)
      → keys_of (items_at (get_field "peers" (push_data num time_text now p)))
        ≡ report_keys p.report
  unfolding get_field push_data
  keys_of-push_data now p = by_report p.report
    where
      by_report :
          (r : Report)
          → keys_of
              (items_at (get_field "peers" (push_data num time_text now (record p { report = r }))))
            ≡ report_keys r
      by_report (of_ctl d) = keys_of-ctl d.peers
      by_report (of_dump d) = keys_of-dump d.peers

-- The keys of the header lines of wgctl's output.
abbrev pub header_keys : Scaled → ℕ → String → List String
header_keys scaled now out =
    map (λ (p : CtlPeer). p.public_key) (peers_by_header scaled now (split b'\n' out))

nothing_pushed {ℓ} : {A : Type ℓ} (a : A) → none ≡ some a → ⊥
nothing_pushed a e = cc

read_tool-keys :
    (w : World) (scaled : Scaled) (s : Started) (now : ℕ) (m : Machine) (flavor : Flavor)
    (out : String) (p : Push)
    → flavor ≡ wgctl
    → pushed w m s (read_tool scaled now flavor s.iface s.iface_public_key out) ≡ some p
    → report_keys p.report ≡ header_keys scaled now out
read_tool-keys w scaled s now m wg out p same e = cc
read_tool-keys w scaled s now m wgctl out p same e = elim (Bool-cases (is_empty (trim_space out))) [
  | inl f ↦ absurd (
      nothing_pushed p
        (rw (parse_wgctl_show-peers_by_header scaled now s.iface s.iface_public_key out, f) at e))
  | inr f ↦
      ap (λ (q : Push). report_keys q.report)
        (sym (
          some_inj _ p (
            rw (parse_wgctl_show-peers_by_header scaled now s.iface s.iface_public_key out, f) at
              e)))
]

-- A push by wgctl has the keys of the header lines that the tool has printed.
self_poll_once-keys :
    (w : World) (scaled : Scaled) (s : Started) (now : ℕ) (m : Machine) (out : String) (p : Push)
    → s.backend.flavor ≡ wgctl
    → run_tool m s.backend s.iface ≡ some out
    → self_poll_once w scaled s (now, m) ≡ some p
    → report_keys p.report ≡ header_keys scaled now out
unfolding self_poll_once
self_poll_once-keys w scaled s now m out p flavor ran e =
    read_tool-keys w scaled s now m s.backend.flavor out p flavor (rw (self_poll_once, ran) at e)

module _ {N : Type 0} (int_of : N → ℕ) where
  entry_keys :
      (devices : List Device) (s : Sample (Payload N)) (stale : Bool) (fs : Fields N)
      → s.payload ≡ some fs
      → keys_of (peers_of (with_hosts devices (some (build_entry int_of s stale))))
        ≡ keys_of (items_at (get_field "peers" fs))
  unfolding build_entry
  entry_keys devices s stale fs e =
      keys_of-enrich devices (build_entry int_of s stale).peers
      ∙ ap (λ p. keys_of (build_entry int_of (record s { payload = p }) stale).peers) e

  -- Where a round of a hub's own poll by wgctl has pushed, and the hub's key has a cached sample
  -- with the data of this push, the page of hub statuses shows peers with the keys of the header
  -- lines with a colon that wgctl has printed, in their order.
  pub page_shows_headers :
      (num : ℕ → N) (time_text : ℕ → String) (w : World) (scaled : Scaled) (s : Started) (now : ℕ)
      (m : Machine) (out : String) (p : Push) (ttl later : ℕ) (db : Db) (h : Hub)
      (entries : Entries (Payload N)) (sample : Sample (Payload N)) (stale : Bool)
      → s.backend.flavor ≡ wgctl
      → run_tool m s.backend s.iface ≡ some out
      → self_poll_once w scaled s (now, m) ≡ some p
      → sample.payload ≡ some (push_data num time_text now p)
      → lookup ttl later h.pubkey entries ≡ some (sample, stale)
      → keys_of (peers_of (hub_status int_of ttl later db h entries).0) ≡ header_keys scaled now out
  unfolding hub_status
  page_shows_headers num time_text w scaled s now m out p ttl later db h entries sample stale flavor
        ran done carried found =
      rw (hub_status, found)
        (entry_keys db.devices sample stale (push_data num time_text now p) carried
          ∙ keys_of-push_data num time_text now p
          ∙ self_poll_once-keys w scaled s now m out p flavor ran done)
