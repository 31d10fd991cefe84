-- ===== src/Status/Entry.antt =====
-- The status of a hub as the page shows it: `wgHubStatusEntry`, `buildHubStatusEntry`, `numFromAny` and
-- `enrichPeersWithHostID` of internal/wg/hub_status_handlers.go, and `wgDeviceHostIDsByPubkey` of
-- internal/wg/store.go. A decoded payload is a JSON value; its numbers are a parameter.
use polar_wg.Store.Rows.{Device}
use polar_wg.Status.{is_live, Sample}
use polar_wg.Base.{
  [], trim_space, is_empty, not, ◌&&◌, ◌||◌, ◌∷◌, str_eq, suc, Option, ℕ, String, List, Bool,
  if◌then◌else◌, none, some,
}

mutual
  pub data Json (N : Type 0) : Type 0 where
    null : Json N
    truth : Bool → Json N
    number : N → Json N
    text : String → Json N
    array : Items N → Json N
    object : Fields N → Json N

  pub data Items (N : Type 0) : Type 0 where
    nil : Items N
    cons : Json N → Items N → Items N

  pub data Fields (N : Type 0) : Type 0 where
    end : Fields N
    field : String → Json N → Fields N → Fields N

-- The fields that the entry has of its own.
abbrev pub is_known : String → Bool
is_known k = str_eq k "peer_count" || (str_eq k "listen_port" || str_eq k "peers")

module _ {N : Type 0} where
  unfoldable pub get_field : String → Fields N → Option (Json N)
  get_field key end = none
  get_field key (field k v fs) =
      let rest = get_field key fs in if str_eq k key then some v else rest

  -- m[key] = value
  unfoldable pub set_field : String → Json N → Fields N → Fields N
  set_field key value end = field key value end
  set_field key value (field k v fs) =
      let rest = set_field key value fs in if str_eq k key then field k value fs else field k v rest

  abbrev pub count_items : Items N → ℕ
  count_items nil = 0
  count_items (cons x xs) = suc (count_items xs)

  unfoldable pub extra_of : Fields N → Fields N
  extra_of end = end
  extra_of (field k v fs) = let rest = extra_of fs in if is_known k then rest else field k v rest

  -- m[key].([]any), or no peers
  abbrev pub items_at : Option (Json N) → Items N
  items_at (some (array xs)) = xs
  items_at _ = nil

  abbrev pub text_at : Option (Json N) → String
  text_at (some (text s)) = s
  text_at _ = ""

  -- numFromAny, of a decoded value, as an int; `int_of` is Go's conversion of a float64, and the int
  -- of 64 bits stands for a negative number too.
  abbrev pub int_at : (N → ℕ) → Option (Json N) → ℕ
  int_at int_of (some (number x)) = int_of x
  int_at int_of _ = 0

-- The map of a sample's `data`; `none` is the nil map.
abbrev pub Payload : Type 0 → Type 0
Payload N = Option (Fields N)

-- wgHubStatusEntry; an empty list of peers and an empty map are left out of the answer.
pub record Entry (N : Type 0) : Type 0 where
  pub host_id : String
  pub iface : String
  pub recorded_at : Option ℕ
  pub stale : Bool
  pub peer_count : ℕ
  pub listen_port : ℕ
  pub peers : Items N
  pub extra : Fields N

module _ {N : Type 0} (int_of : N → ℕ) where
  abbrev bare : Sample (Payload N) → Bool → Entry N
  bare s stale = record {
    host_id = s.host_id;
    iface = s.iface;
    recorded_at = s.recorded_at;
    stale = stale;
    peer_count = 0;
    listen_port = 0;
    peers = nil;
    extra = end;
  }

  abbrev with_data : Entry N → Option (Fields N) → Entry N
  with_data e none = e
  with_data e (some fs) = record e {
    peer_count = int_at int_of (get_field "peer_count" fs);
    listen_port = int_at int_of (get_field "listen_port" fs);
    peers = items_at (get_field "peers" fs);
    extra = extra_of fs;
  }

  -- buildHubStatusEntry
  unfoldable pub build_entry : Sample (Payload N) → Bool → Entry N
  unfolding get_field extra_of
  build_entry s stale = with_data (bare s stale) s.payload

-- wgDeviceHostIDsByPubkey: the last row of a key wins.
unfoldable pub host_id_of : List Device → String → Option String
host_id_of [] key = none
host_id_of (d ∷ devices) key = elim (host_id_of devices key) [
  | some hid ↦ some hid
  | none ↦
      if (is_live d && not (is_empty d.host_id))
        && (not (is_empty key) && str_eq (trim_space d.pubkey) key)
      then some d.host_id
      else none
]

module _ {N : Type 0} where
  abbrev pub stamp_host : Fields N → Option String → Fields N
  stamp_host fs none = fs
  stamp_host fs (some hid) = set_field "host_id" (text hid) fs

  -- The body of the loop for one peer; what is no object is passed over.
  unfoldable pub stamp_peer : List Device → Json N → Json N
  unfolding get_field host_id_of set_field
  stamp_peer devices (object fs) =
      object (stamp_host fs (host_id_of devices (text_at (get_field "public_key" fs))))
  stamp_peer devices v = v

  -- enrichPeersWithHostID
  unfoldable pub enrich : List Device → Items N → Items N
  enrich devices nil = nil
  enrich devices (cons v vs) = cons (stamp_peer devices v) (enrich devices vs)
