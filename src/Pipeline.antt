-- ===== src/Pipeline.antt =====
-- The data of a sample as JSON, from the poll of a hub's own interface to the page of hub statuses:
-- the maps that parseWGCtlShow (internal/wg/hub_local_wgctl.go), parseWGShowDump and
-- hubLocalSelfPollOnce (internal/wg/hub_local_self_poll.go) build. How encoding/json writes a number
-- and time.Format a time are parameters.
pub mod Shown
use polar_wg.Wgctl.{CtlPeer}
use polar_wg.Dump.{PeerSample}
use polar_wg.Base.{[], length, ◌∷◌, List, Option, String, ℕ, if◌then◌else◌, none, some, refl}
use polar_wg.Status.Entry.{
  end, field, nil, cons, number, text, truth, object, array, Json, Items, Fields,
}
use polar_wg.Selfpoll.{NetInfo, Push, of_ctl, of_dump}

abbrev pub items_of {ℓ} : {N : Type 0} {A : Type ℓ} → (A → Json N) → List A → Items N
items_of f [] = nil
items_of f (x ∷ xs) = cons (f x) (items_of f xs)

module _ {N : Type 0} (num : ℕ → N) where
  abbrev number_if : String → Option ℕ → Fields N → Fields N
  number_if key none fs = fs
  number_if key (some n) fs = field key (number (num n)) fs

  abbrev pub ctl_peer_data : CtlPeer → Json N
  ctl_peer_data p = object (
      field "public_key" (text p.public_key) (
        field "endpoint" (text p.endpoint) (
          field "allowed_ips" (text p.allowed_ips) (
            field "bytes_rx" (number (num p.bytes_rx)) (
              field "bytes_tx" (number (num p.bytes_tx)) (
                number_if "handshake_age_sec" p.handshake_age_sec (
                  number_if "latest_handshake_unix" p.latest_handshake_unix
                    (number_if "keepalive_sec" p.keepalive_sec end))))))))

  abbrev pub peer_data : PeerSample → Json N
  peer_data p = object (
      field "public_key" (text p.public_key) (
        field "has_preshared_key" (truth p.has_preshared_key) (
          field "endpoint" (text p.endpoint) (
            field "allowed_ips" (text p.allowed_ips) (
              field "latest_handshake_unix" (number (num p.latest_handshake_unix)) (
                field "bytes_rx" (number (num p.bytes_rx)) (
                  field "bytes_tx" (number (num p.bytes_tx)) (
                    field "keepalive_sec" (number (num p.keepalive_sec))
                      (number_if "handshake_age_sec" p.handshake_age_sec end)))))))))

  -- The map behind `data`, with `iface_net` as hubLocalSelfPollOnce sets it.
  abbrev pub data_of : String → String → ℕ → String → ℕ → String → Items N → NetInfo → Fields N
  data_of iface key port fwmark count sampled_at peers net = field "kind" (text "wg_peer_status") (
      field "iface" (text iface) (
        field "iface_public_key" (text key) (
          field "listen_port" (number (num port)) (
            field "fwmark" (text fwmark) (
              field "peer_count" (number (num count)) (
                field "sampled_at" (text sampled_at) (
                  field "peers" (array peers) (
                    field "iface_net"
                      (object (
                        field "addrs" (array (items_of (λ s. text s) net.addrs))
                          (field "routes" (array (items_of (λ s. text s) net.routes)) end)))
                      end))))))))

  -- The data of a push; a dump is sampled at the time of the push.
  unfoldable pub push_data : (ℕ → String) → ℕ → Push → Fields N
  push_data time_text now p = elim p.report [
    | of_ctl d ↦
        data_of d.iface d.iface_public_key d.listen_port d.fwmark d.peer_count
          (time_text d.sampled_at) (items_of ctl_peer_data d.peers) p.iface_net
    | of_dump d ↦
        data_of d.iface d.iface_public_key d.listen_port d.fwmark (length d.peers) (time_text now)
          (items_of peer_data d.peers) p.iface_net
  ]
