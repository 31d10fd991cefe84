-- ===== src/Alloc/Single.antt =====
-- One token enrols one device: what a used token still allows, and what a repeated call does.
use mathlib.Core.Path.{ap, sym, subst}
use polar_wg.Alloc.Joining.{Joined}
use polar_wg.Base.{
  find-All, ==_refl, find-test, ◌∷◌, All-append, any-All, All-mono, All, ◌∙◌, find-update_where,
  if◌then◌else◌, refl, ◌==◌, ◌&&◌, inl, str_eq_iff, arith, inr, Option-cases, any, ◌≢◌, ◌≡◌, ℕ,
  str_eq, find, Option,
}
use polar_wg.Store.Devices.{live_where, lookup_device_by_pubkey, get_device_by_id, insert_device}
use polar_wg.Store.Rows.{Device, Hub, Token, Db}
use polar_wg.Alloc.Input.{Allocated, RegisterInput, Call}
use polar_wg.Store.Tokens.{consume, lookup_unused_token}
use polar_wg.Alloc.Sites.{lookup_site_by_slug_in_hub, insert_site, get_or_create_site}
use polar_wg.Net.{World}
use polar_wg.Alloc.{
  List, String, [], Role, is_some_of, false, refresh, is_live, update_where, trim_space, is_some,
  get_hub_by_id, some, true, ok, hub_device_ip, refresh_existing_device, claim, do_allocate,
  bind_hub_device,
}

-- The call carries the text of the token that the row was minted for, and the row is found.
abbrev token_row : World → Db → RegisterInput → Option Token
token_row w db i = find (λ t. str_eq t.token_hash (w.hash i.token)) db.tokens

-- With a used token a call succeeds only for the key of a live device that has the token's hash.
consumed_token_only_refreshes :
    (w : World) (c : Call) (i : RegisterInput) (db : Db) (tok : Token) (r : Db × Allocated)
    → token_row w db i ≡ some tok
    → is_some tok.consumed_at ≡ true
    → do_allocate w c i db ≡ ok r
    → (d : Device) × (lookup_device_by_pubkey db (trim_space i.pubkey) ≡ some d)
      × (d.token_hash ≡ w.hash i.token)
unfolding do_allocate lookup_unused_token claim
consumed_token_only_refreshes w c i db tok r row used done =
    elim (Option-cases (lookup_device_by_pubkey db (trim_space i.pubkey))) [
      | inr (d, e) ↦ (d, e, ground (arith, str_eq_iff d.token_hash (w.hash i.token)))
      | inl e ↦ ground (arith, e, row)
    ]

-- The rows of one hash are rows of one key, so the live row of a key with that hash has this key.
abbrev OfKey : String → String → Device → Type 0
OfKey hash key x = (str_eq x.token_hash hash && is_live x) ≡ true → x.pubkey ≡ key

found_key :
    (xs : List Device) (wanted hash key : String) (d : Device)
    → All (OfKey hash key) xs
    → find (λ (x : Device). str_eq x.pubkey wanted && is_live x) xs ≡ some d
    → d.token_hash ≡ hash
    → wanted ≡ key
found_key xs wanted hash key d all found same =
    let hit : (str_eq d.pubkey wanted && is_live d) ≡ true =
      find-test (λ (x : Device). str_eq x.pubkey wanted && is_live x) xs d found in
    let own : OfKey hash key d =
      find-All (OfKey hash key) (λ (x : Device). str_eq x.pubkey wanted && is_live x) xs d all
        found in
    ground (arith, own, hit, str_eq_iff d.pubkey wanted, str_eq_iff d.token_hash hash)

-- After a token has enrolled a device, where no other live device had the token's hash, every
-- call with this token that succeeds on the database it leaves is for the same key.
pub token_enrols_one_key :
    (w : World) (c c' : Call) (i i' : RegisterInput) (db : Db) (tok : Token) (h : Hub)
    (r r' : Db × Allocated)
    → token_row w db i ≡ some tok
    → any (λ (d : Device). str_eq d.token_hash (w.hash i.token) && is_live d) db.devices ≡ false
    → Joined w c i tok h db r
    → i'.token ≡ i.token
    → do_allocate w c' i' r.0 ≡ ok r'
    → trim_space i'.pubkey ≡ trim_space i.pubkey
unfolding lookup_device_by_pubkey
token_enrols_one_key w c c' i i' db tok h r r' row alone j same done =
    let kept : token_row w r.0 i' ≡ some (consume c.now db.next_device tok) =
      rw (same, j.tokens)
        (find-update_where (λ (t : Token). str_eq t.token_hash (w.hash i.token))
            (λ (t : Token). t.id == tok.id) (consume c.now db.next_device) (λ t. refl) db.tokens tok
            row
          ∙ rw (==_refl tok.id)) in
    let (d, found, hash) =
      consumed_token_only_refreshes w c' i' r.0 (consume c.now db.next_device tok) r' kept refl
        done in
    let hash' : d.token_hash ≡ w.hash i.token = hash ∙ ap w.hash same in
    found_key r.0.devices (trim_space i'.pubkey) (w.hash i.token) (trim_space i.pubkey) d
      (subst (All (OfKey (w.hash i.token) (trim_space i.pubkey))) (sym j.devices) (
        All-append (OfKey (w.hash i.token) (trim_space i.pubkey)) db.devices (j.device ∷ [])
          (All-mono (λ (x : Device). (str_eq x.token_hash (w.hash i.token) && is_live x) ≡ false)
            (OfKey (w.hash i.token) (trim_space i.pubkey)) (λ x no yes. cc) db.devices
            (any-All (λ (x : Device). str_eq x.token_hash (w.hash i.token) && is_live x) db.devices
              alone))
          ((λ _. j.pubkey), tt)))
      found hash'

-- What a repeated registration of the live device `d` returns.
abbrev pub refreshed : RegisterInput → Token → Hub → Device → Db → Db × Allocated
refreshed i tok h d db = (
  record db { devices = update_where (λ x. x.id == d.id) (refresh i) db.devices },
  record {
    device = refresh i d;
    hub = h;
    role = if is_some_of h.bound_device_id d.id then Role.hub else Role.device;
    plaintext_token = i.token;
    token_expires_at = tok.expires_at;
  },
)

claim_again :
    (w : World) (c : Call) (i : RegisterInput) (db : Db) (tok : Token) (h : Hub) (d : Device)
    → find (λ (x : Device). str_eq x.pubkey (trim_space i.pubkey) && is_live x) db.devices ≡ some d
    → d.token_hash ≡ w.hash i.token
    → find (λ (x : Device). x.id == d.id) db.devices ≡ some d
    → claim w c i tok h db ≡ ok (refreshed i tok h d db)
unfolding claim refresh_existing_device get_device_by_id lookup_device_by_pubkey
claim_again w c i db tok h d found same by_id =
    let back : find (λ (x : Device). x.id == d.id)
          (update_where (λ x. x.id == d.id) (refresh i) db.devices)
        ≡ some (refresh i d) =
      find-update_where (λ x. x.id == d.id) (λ x. x.id == d.id) (refresh i) (λ a. refl) db.devices d
        by_id
      ∙ rw (==_refl d.id) in
    let hit : (str_eq d.pubkey (trim_space i.pubkey) && is_live d) ≡ true =
      find-test (λ (x : Device). str_eq x.pubkey (trim_space i.pubkey) && is_live x) db.devices d
        found in
    let live : (str_eq d.token_hash (w.hash i.token) && is_live d) ≡ true =
      ground (arith, hit, str_eq_iff d.token_hash (w.hash i.token)) in
    rw (found, claim, live, back)

-- A call with a token that is found and has a hub, for a key whose live device has the token's
-- hash, succeeds, whether the token is used or not: the device's row is refreshed where it
-- stands and returned, and nothing else changes.
pub do_allocate_again :
    (w : World) (c : Call) (i : RegisterInput) (db : Db) (tok : Token) (hub_id : ℕ) (h : Hub)
    (d : Device)
    → lookup_unused_token w i.token c.now db ≡ ok (some tok)
    → tok.hub_id ≡ some hub_id
    → get_hub_by_id db hub_id ≡ some h
    → lookup_device_by_pubkey db (trim_space i.pubkey) ≡ some d
    → d.token_hash ≡ w.hash i.token
    → get_device_by_id db d.id ≡ some d
    → do_allocate w c i db ≡ ok (refreshed i tok h d db)
unfolding do_allocate get_device_by_id lookup_device_by_pubkey
do_allocate_again w c i db tok hub_id h d row to_hub hub_row found same by_id =
    simp (row, to_hub, hub_row) (claim_again w c i db tok h d found same by_id)

-- A hub whose address a live device has cannot be bound.
pub address_in_use_blocks_bind :
    (w : World) (c : Call) (i : RegisterInput) (tok : Token) (h : Hub) (db : Db)
    (r : Db × Allocated)
    → live_where (λ d. str_eq d.device_ip (hub_device_ip w h)) db ≡ true
    → bind_hub_device w c i tok h db ≢ ok r
unfolding bind_hub_device get_or_create_site insert_device insert_site lookup_site_by_slug_in_hub
address_in_use_blocks_bind w c i tok h db r used done = ground arith
