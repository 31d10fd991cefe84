-- ===== src/Alloc/Again.antt =====
-- A device that registers twice with one token.
use polar_wg.Alloc.Single.{do_allocate_again, refreshed}
use polar_wg.Alloc.{String, is_live, refresh, do_allocate}
use polar_wg.Alloc.Joining.{Joined}
use polar_wg.Errors.{ok}
use polar_wg.Alloc.Addressing.{IsAddressed}
use polar_wg.Store.Rows.{Hub, Token, Db, Device}
use polar_wg.Alloc.Input.{Allocated, Call, RegisterInput}
use polar_wg.Net.{World}
use polar_wg.Store.Tokens.{consume_token, consume, lookup_unused_token}
use polar_wg.Store.Hubs.{get_hub_by_id}
use polar_wg.Store.Devices.{lookup_device_by_pubkey, get_device_by_id}
use mathlib.Core.Path.{ap, sym}
use polar_wg.Base.{
  inr, inl, Option-cases, All, All-mono, All-find, find, find-update_where, find-append_none,
  update_where, ◌==◌, ==_refl, ◌++◌, ◌∷◌, [], ◌≡◌, ◌<◌, ◌∙◌, arith, refl, some, none, true, false,
  if◌then◌else◌, trim_space, is_empty, List, Bool, ℕ, str_eq, str_eq_iff, ◌&&◌,
}

-- The row of the device `d` after the call `i`: its columns of identity, address, access and time
-- as they were, and those that describe the machine as the call has them. A call without a host
-- id keeps the host id.
pub record IsRefreshed (i : RegisterInput) (d d' : Device) : Type 0 where
  pub id : d'.id ≡ d.id
  pub device_id : d'.device_id ≡ d.device_id
  pub hub_id : d'.hub_id ≡ d.hub_id
  pub site_id : d'.site_id ≡ d.site_id
  pub d_index : d'.d_index ≡ d.d_index
  pub device_ip : d'.device_ip ≡ d.device_ip
  pub pubkey : d'.pubkey ≡ d.pubkey
  pub wg_endpoint : d'.wg_endpoint ≡ d.wg_endpoint
  pub token_hash : d'.token_hash ≡ d.token_hash
  pub token_expires_at : d'.token_expires_at ≡ d.token_expires_at
  pub egress_hub_id : d'.egress_hub_id ≡ d.egress_hub_id
  pub isolated : d'.isolated ≡ d.isolated
  pub created_at : d'.created_at ≡ d.created_at
  pub last_seen_at : d'.last_seen_at ≡ d.last_seen_at
  pub removed_at : d'.removed_at ≡ d.removed_at
  pub site_slug : d'.site_slug ≡ d.site_slug
  pub hub_slug : d'.hub_slug ≡ d.hub_slug
  pub hostname : d'.hostname ≡ trim_space i.hostname
  pub os : d'.os ≡ trim_space i.os
  pub arch : d'.arch ≡ trim_space i.arch
  pub agent_ver : d'.agent_ver ≡ trim_space i.agent_ver
  pub wg_listen_port : d'.wg_listen_port ≡ i.wg_listen_port
  pub lan_addrs : d'.lan_addrs ≡ i.lan_addrs
  pub host_id :
      d'.host_id ≡ (if is_empty (trim_space i.host_id) then d.host_id else trim_space i.host_id)

update_where-last {ℓ} :
    {A : Type ℓ} (p : A → Bool) (f : A → A) (xs : List A) (a : A)
    → All (λ x. p x ≡ false) xs
    → p a ≡ true
    → update_where p f (xs ++ a ∷ []) ≡ xs ++ f a ∷ []
update_where-last p f [] a missed hit = rw hit
update_where-last p f (x ∷ xs) a missed hit =
    ground (arith, missed.0, update_where-last p f xs a missed.1 hit)

-- A token that is accepted is found again after it has been used.
lookup_after_consume :
    (w : World) (raw : String) (now at id : ℕ) (db : Db) (tok : Token)
    → lookup_unused_token w raw now db ≡ ok (some tok)
    → lookup_unused_token w raw now (consume_token tok.id at id db) ≡ ok (some (consume at id tok))
unfolding lookup_unused_token consume_token
lookup_after_consume w raw now at id db tok row =
    elim (Option-cases (find (λ (t : Token). str_eq t.token_hash (w.hash raw)) db.tokens)) [
      | inl miss ↦ ground (arith, miss)
      | inr (t, hit) ↦
          let same : t ≡ tok = ground (arith, hit) in
          let back =
            find-update_where (λ (t : Token). str_eq t.token_hash (w.hash raw))
              (λ (t : Token). t.id == tok.id) (consume at id) (λ t. refl) db.tokens tok
              (hit ∙ ap some same) in
          rw (back, ==_refl tok.id) (ground (arith, hit))
    ]

-- After a device has joined a well-addressed database, in which no live device had its key, a
-- second call with its token, at a time when the token would still be accepted, and with its key
-- succeeds, though the token is used: it returns the device that the first call added, with its
-- id and its address, and only that device's row changes. In the row the columns of identity,
-- address, access and time are as they were, and those that describe the machine are the second
-- call's, a host id that it does not give excepted.
pub register_again :
    (w : World) (c c' : Call) (i i' : RegisterInput) (db : Db) (tok : Token) (h : Hub)
    (r : Db × Allocated)
    → IsAddressed w db
    → lookup_unused_token w i.token c'.now db ≡ ok (some tok)
    → tok.hub_id ≡ some h.id
    → get_hub_by_id db h.id ≡ some h
    → lookup_device_by_pubkey db (trim_space i.pubkey) ≡ none
    → Joined w c i tok h db r
    → i'.token ≡ i.token
    → trim_space i'.pubkey ≡ trim_space i.pubkey
    → (r' : Db × Allocated) × (d : Device) × (do_allocate w c' i' r.0 ≡ ok r')
      × (r.0.devices ≡ db.devices ++ d ∷ [])
      × (d.id ≡ r.1.device.id)
      × (d.device_ip ≡ r.1.device.device_ip)
      × IsRefreshed i' d r'.1.device
      × (r'.0 ≡ record r.0 { devices = db.devices ++ r'.1.device ∷ [] })
unfolding lookup_unused_token get_hub_by_id lookup_device_by_pubkey get_device_by_id consume_token
register_again w c c' i i' db tok h r v row to_hub hub_row unseen j same_token same_key =
    let d = j.device in
    let old : All (λ (x : Device). (x.id == d.id) ≡ false) db.devices =
      All-mono (λ x. x.id < db.next_device) (λ x. (x.id == d.id) ≡ false)
        (λ x less. ground (arith, j.identity)) db.devices v.fresh in
    let token_row : lookup_unused_token w i'.token c'.now r.0
        ≡ ok (some (consume c.now db.next_device tok)) =
      rw (same_token, j.tokens)
        (lookup_after_consume w i.token c'.now c.now db.next_device db tok row) in
    let found : lookup_device_by_pubkey r.0 (trim_space i'.pubkey) ≡ some d =
      rw (same_key, j.devices)
        (find-append_none (λ x. str_eq x.pubkey (trim_space i.pubkey) && is_live x) db.devices
            (d ∷ []) unseen
          ∙ ground (arith, j.pubkey, j.live, str_eq_iff d.pubkey (trim_space i.pubkey))) in
    let by_id : get_device_by_id r.0 d.id ≡ some d = rw j.devices (
      find-append_none (λ x. x.id == d.id) db.devices (d ∷ [])
        (All-find (λ x. x.id == d.id) db.devices old)
      ∙ rw (==_refl d.id)) in
    (
      refreshed i' (consume c.now db.next_device tok) h d r.0,
      d,
      do_allocate_again w c' i' r.0 (consume c.now db.next_device tok) h.id h d token_row to_hub
          (rw j.hubs hub_row) found (j.token_hash ∙ sym (ap w.hash same_token)) by_id,
      j.devices,
      sym j.shown.0,
      sym j.shown.1,
      record {
        id = refl;
        device_id = refl;
        hub_id = refl;
        site_id = refl;
        d_index = refl;
        device_ip = refl;
        pubkey = refl;
        wg_endpoint = refl;
        token_hash = refl;
        token_expires_at = refl;
        egress_hub_id = refl;
        isolated = refl;
        created_at = refl;
        last_seen_at = refl;
        removed_at = refl;
        site_slug = refl;
        hub_slug = refl;
        hostname = refl;
        os = refl;
        arch = refl;
        agent_ver = refl;
        wg_listen_port = refl;
        lan_addrs = refl;
        host_id = refl;
      },
      ap (λ (l : List Device). record r.0 { devices = l })
          (rw j.devices (
            update_where-last (λ (x : Device). x.id == d.id) (refresh i') db.devices d old
              (==_refl d.id))),
    )
