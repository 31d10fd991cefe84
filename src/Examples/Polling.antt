-- ===== src/Examples/Polling.antt =====
-- The theorems on the hubs' live state and on the poll of the hub's own interface at sample data.
use polar_wg.Pipeline.{push_data}
use polar_wg.Dump.{int_or_zero, fields_from}
use polar_wg.Status.Rows.{hub_status}
use polar_wg.Wgctl.{walk, on_line, flush, show_peers, peer_field, parse_wgctl_show}
use polar_wg.Store.Rows.{Hub, Db}
use polar_wg.Selfpoll.{self_poll_once, self_poll, iface_net, Machine}
use polar_wg.Wgctl.Fields.{
  unit_word, unit_bytes, transfer_in, transfer_at, run_of, quantity_at, quantities, parse_transfer,
  parse_bytes, keepalive_seconds, keepalive_in, keepalive_at, blank_then, amount_at, age_from,
  strip_prefix, Scaled, handshake_age,
}
use polar_wg.Status.{Entries, Sample, lookup}
use polar_wg.Base.{
  trim_suffix, cut, length, is_empty, ◌*◌, arith, str_eq, List, false, parse_decimal, true, split,
  ℕ, All, String, ◌≡◌, trim_space, trim_right, trim_left, itoa, is_space, if◌then◌else◌, none, some,
  refl, ◌∷◌, [],
}
use polar_wg.Status.Poll.{Loose, poll_loop, Decoding, Answer, failed, responded}
use polar_wg.Status.Entry.{
  Payload, stamp_peer, set_field, host_id_of, get_field, extra_of, enrich, build_entry, end, field,
  nil, cons, text, object, array,
}
use polar_wg.Wgctl.Age.{handshake_age-age_text}
use polar_wg.Wgctl.Matches.{Amount, minute, second}
use polar_wg.Wgctl.Peers.{parse_wgctl_show-peers_by_header, peers_by_header}
use polar_wg.Status.Live.{peers_of, stamped_hosts_stay}
use polar_wg.Status.Rounds.{last_delivery, sample_in, poll_loop-lookup}
use polar_wg.Selfpoll.Names.{self_poll-IsNamed, IsNamed}
use polar_wg.Selfpoll.{of_ctl, wgctl, iface_net, Push, Started}
use polar_wg.Pipeline.Shown.{page_shows_headers, keys_of, header_keys}
use polar_wg.Errors.{empty_wgctl, err, ok}
use polar_wg.Examples.Data.{world, home, db1, laptop_row}

-- Whole numbers, in place of those that strconv.ParseFloat reads.
abbrev whole : Scaled
whole number mult = elim (parse_decimal number) [ none ↦ none | some n ↦ some (n * mult) ]

abbrev shown : String
shown =
    "interface: utun0\n  peers: 2\n\npeer #0: laptopkey\n  endpoint: 198.51.100.4:51820\n  latest handshake: 1 minutes, 22 seconds ago\n  transfer: 2 KiB received, 1 KiB sent\n\npeer #1: phonekey\n  endpoint: (none)\n  persistent keepalive: every 25 seconds\n"

-- The two peers of the output, with all that its lines say of them.
shown_peers :
    show_peers whole 100 (split b'\n' shown)
    ≡ record {
      public_key = "laptopkey";
      endpoint = "198.51.100.4:51820";
      allowed_ips = "";
      bytes_rx = 2048;
      bytes_tx = 1024;
      handshake_age_sec = some 82;
      latest_handshake_unix = some 18;
      keepalive_sec = none;
    }
      ∷ record {
        public_key = "phonekey";
        endpoint = "";
        allowed_ips = "";
        bytes_rx = 0;
        bytes_tx = 0;
        handshake_age_sec = none;
        latest_handshake_unix = none;
        keepalive_sec = some 25;
      }
      ∷ []
unfolding show_peers walk on_line flush peer_field split trim_space trim_right trim_left is_space
    strip_prefix cut handshake_age quantities quantity_at unit_word age_from trim_suffix run_of
    parse_decimal parse_transfer transfer_in transfer_at amount_at blank_then parse_bytes unit_bytes
    fields_from keepalive_seconds keepalive_in keepalive_at int_or_zero
shown_peers = refl

parse_wgctl_show-peers_by_header_example : parse_wgctl_show whole 100 "wgc0" "hubkey" shown ≡ (
    let peers = peers_by_header whole 100 (split b'\n' shown) in
    if is_empty (trim_space shown)
    then err empty_wgctl
    else ok (record {
      iface = "wgc0";
      iface_public_key = "hubkey";
      listen_port = 0;
      fwmark = "";
      peer_count = length peers;
      sampled_at = 100;
      peers = peers;
    }))
parse_wgctl_show-peers_by_header_example =
    parse_wgctl_show-peers_by_header whole 100 "wgc0" "hubkey" shown

abbrev a_minute : Amount
a_minute = record { count = 1; unit = minute; has_s = true }

abbrev some_seconds : Amount
some_seconds = record { count = 22; unit = second; has_s = true }

handshake_age-age_text_example : handshake_age "1 minutes, 22 seconds ago" ≡ some 82
unfolding itoa
handshake_age-age_text_example =
    handshake_age-age_text a_minute (some_seconds ∷ []) (omega arith, (omega arith, tt))

-- A peer of the laptop's key, in a sample of the hub at home.
abbrev live_sample : Sample (Payload ℕ)
live_sample = record {
  host_id = "h";
  iface = "wgc0";
  iface_public_key = home.pubkey;
  run_id = 1;
  recorded_at = some 40;
  payload = some (
      field "peers" (array (cons (object (field "public_key" (text laptop_row.pubkey) end)) nil))
        end);
}

abbrev cached : Entries (Payload ℕ)
cached key = if str_eq home.pubkey key then some live_sample else none

abbrev hosted : Db
hosted = record db1 { devices = record laptop_row { host_id = "host-1" } ∷ [] }

abbrev gone : Db
gone = record db1 { devices = [] }

is_cached : lookup 60 50 home.pubkey cached ≡ some (live_sample, false)
unfolding lookup
is_cached = refl

no_host : (key : String) → host_id_of gone.devices key ≡ none
unfolding host_id_of
no_host key = refl

stamped_hosts_stay_example :
    peers_of
      (hub_status
        (λ (n : ℕ). n)
        60
        55
        gone
        home
        (hub_status (λ (n : ℕ). n) 60 50 hosted home cached).1).0
    ≡ enrich hosted.devices (build_entry (λ (n : ℕ). n) live_sample false).peers
stamped_hosts_stay_example =
    stamped_hosts_stay (λ (n : ℕ). n) 60 50 55 hosted gone home cached live_sample false is_cached
      no_host

-- The host's id is in that answer.
stamped_host :
    enrich hosted.devices (build_entry (λ (n : ℕ). n) live_sample false).peers
    ≡ cons
        (object (field "public_key" (text laptop_row.pubkey) (field "host_id" (text "host-1") end)))
        nil
unfolding enrich stamp_peer build_entry get_field set_field extra_of host_id_of trim_space
    trim_right trim_left is_space
stamped_host = refl

abbrev loose : String → ℕ → Loose ℕ
loose key payload = record {
  host_id = "h";
  iface = "wg0";
  iface_public_key = key;
  run_id = 1;
  recorded_at = "";
  payload = payload;
}

abbrev plain : Decoding (List (Loose ℕ)) (Loose ℕ) ℕ
plain = record {
  samples_of = λ body. some body;
  loose_of = λ raw. some raw;
  parse_time = λ layout s. none;
}

abbrev answered : Answer (List (Loose ℕ))
answered = responded 200 (loose "key" 1 ∷ loose "other" 2 ∷ loose "key" 3 ∷ [])

poll_loop-lookup_example :
    lookup 60 50 "key"
      (poll_loop plain 10 none
        ((20, some answered) ∷ (30, some failed) ∷ (40, some (responded 404 [])) ∷ [])).entries
    ≡ sample_in plain 60 50 "key" (
        last_delivery plain (
          (10, none)
          ∷ (20, some answered)
          ∷ (30, some failed)
          ∷ (40, some (responded 404 []))
          ∷ []))
poll_loop-lookup_example =
    poll_loop-lookup plain 60 10 50 none
      ((20, some answered) ∷ (30, some failed) ∷ (40, some (responded 404 [])) ∷ []) "key" refl

abbrev variables : String → String
variables name =
    if str_eq name "POLAR_WG_HUB_LOCAL_POLL_IFACE"
    then "wgc0"
    else if str_eq name "POLAR_WG_HUB_LOCAL_POLL_PUBKEY"
    then "hubkey"
    else ""

abbrev hub_box : Machine
hub_box = record {
  getenv = variables;
  exists_file = λ path. str_eq path "/usr/local/bin/wgctl";
  look_path = λ tool. none;
  output = λ program arguments.
      if str_eq program "sudo"
      then some shown
      else some "10.88.0.1 10.88.0.1 UH wgc0\n10.88.0/24 10.88.0.1 UGSc wgc0\n";
  addrs_of = λ iface. none;
  goos = "darwin";
}

self_poll-IsNamed_example :
    All (IsNamed hub_box) (self_poll world whole hub_box ((100, hub_box) ∷ (130, hub_box) ∷ []))
self_poll-IsNamed_example =
    self_poll-IsNamed world whole hub_box ((100, hub_box) ∷ (130, hub_box) ∷ [])

abbrev hub_started : Started
hub_started = record {
  iface = "wgc0";
  iface_public_key = "hubkey";
  backend = record { flavor = wgctl; bin = "/usr/local/bin/wgctl" };
  interval = 30;
}

abbrev shown_push : Push
shown_push = record {
  iface = "wgc0";
  iface_public_key = "hubkey";
  report = of_ctl (record {
    iface = "wgc0";
    iface_public_key = "hubkey";
    listen_port = 0;
    fwmark = "";
    peer_count = length (show_peers whole 100 (split b'\n' shown));
    sampled_at = 100;
    peers = show_peers whole 100 (split b'\n' shown);
  });
  iface_net = iface_net world hub_box "wgc0";
}

has_pushed : self_poll_once world whole hub_started (100, hub_box) ≡ some shown_push
unfolding self_poll_once parse_wgctl_show trim_space trim_right trim_left is_space
has_pushed = refl

-- The hub of the machine, and the sample that dock gives back.
abbrev polled : Hub
polled = record home { pubkey = "hubkey" }

abbrev no_time : ℕ → String
no_time t = ""

abbrev hub_sample : Sample (Payload ℕ)
hub_sample = record live_sample {
  iface_public_key = "hubkey";
  payload = some (push_data (λ (n : ℕ). n) no_time 100 shown_push);
}

abbrev hub_cached : Entries (Payload ℕ)
hub_cached key = if str_eq "hubkey" key then some hub_sample else none

hub_is_cached : lookup 60 50 polled.pubkey hub_cached ≡ some (hub_sample, false)
unfolding lookup
hub_is_cached = refl

page_shows_headers_example :
    keys_of (peers_of (hub_status (λ (n : ℕ). n) 60 50 hosted polled hub_cached).0)
    ≡ header_keys whole 100 shown
page_shows_headers_example =
    page_shows_headers (λ (n : ℕ). n) (λ (n : ℕ). n) no_time world whole hub_started 100 hub_box
      shown shown_push 60 50 hosted polled hub_cached hub_sample false refl refl has_pushed refl
      hub_is_cached
