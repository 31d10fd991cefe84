-- ===== src/Cloud/Release.antt =====
-- What is left of a token and its device after the release of the token.
use polar_wg.Errors.Ends.{returns, Ends-last, anything, Ends-bind, Ends-ok}
use polar_wg.Api.Leave.{clear_if_bound-devices, mark_device_removed-devices}
use polar_wg.Store.Rows.{coalesce}
use polar_wg.Cloud.{
  token_not_found, or_fail, loopback_only, require, token_device, internal_token, internal_release,
  get_hub_by_id, is_live, ok, Db, Device, Token, release_token, release_device,
}
use polar_wg.Store.Tokens.{revoke_token, get_token_by_id}
use polar_wg.Store.Devices.{remove_at, mark_device_removed, get_device_by_id}
use polar_wg.Api.{clear_if_bound}
use polar_wg.Store.Hubs.{clear_hub_bind}
use polar_wg.Base.{
  List, none, some_inj, Option-cases, Bool, String, ==_refl, find-update_where, ◌∙◌, find, false,
  ◌==◌, true, Bool-cases, arith, update_where, is_some, some, ◌≡◌, Option, ℕ, refl, inl, inr,
}
use polar_wg.Errors.{or_fail-eq-ok, require-eq-ok, >>=-eq-ok, ok_inj}
use mathlib.Core.Path.{subst, sym, ap}

-- The device of the token, after it has been released.
abbrev IsGone : ℕ → Device → Db → Type 0
IsGone id d db =
    (e : Device) × (get_device_by_id db id ≡ some e)
    × (is_live e ≡ false)
    × (e.device_id ≡ d.device_id)
    × (e.device_ip ≡ d.device_ip)

mark_device_removed-IsGone :
    (id now : ℕ) (d : Device) (db db1 db' : Db)
    → get_device_by_id db id ≡ some d
    → mark_device_removed d.id now db ≡ ok db1
    → db'.devices ≡ db1.devices
    → IsGone id d db'
unfolding get_device_by_id
mark_device_removed-IsGone id now d db db1 db' row marked same =
    let rows : db'.devices ≡ update_where (λ x. x.id == d.id) (remove_at now) db.devices =
      same ∙ mark_device_removed-devices d.id now db db1 marked in
    let back : find (λ (x : Device). x.id == id) db'.devices ≡ some (remove_at now d) =
      ap (find (λ (x : Device). x.id == id)) rows
      ∙ find-update_where (λ (x : Device). x.id == id) (λ (x : Device). x.id == d.id)
          (remove_at now) (λ x. refl) db.devices d row
      ∙ rw (==_refl d.id) refl in
    (remove_at now d, back, ground arith, refl, refl)

release_device-IsGone :
    (id now : ℕ) (d : Device) (db db' : Db)
    → get_device_by_id db id ≡ some d
    → release_device (some d) now db ≡ ok db'
    → IsGone id d db'
unfolding release_device
release_device-IsGone id now d db db' row done = elim (Bool-cases (is_live d)) [
  | inr dead ↦
      subst (IsGone id d) (ok_inj db db' (rw (release_device, dead) at done))
        (d, row, dead, refl, refl)
  | inl live ↦
      let (db1, marked, back) =
        >>=-eq-ok (mark_device_removed d.id now db)
          (λ (db1 : Db). ok (clear_if_bound (get_hub_by_id db1 d.hub_id) d.id now db1)) db'
          (rw (release_device, live) at done) in
      mark_device_removed-IsGone id now d db db1 db' row marked (
        ap (λ (x : Db). x.devices)
          (sym (ok_inj (clear_if_bound (get_hub_by_id db1 d.hub_id) d.id now db1) db' back))
        ∙ clear_if_bound-devices (get_hub_by_id db1 d.hub_id) d.id now db1)
]

release_device-tokens :
    (o : Option Device) (now : ℕ) (db db' : Db)
    → release_device o now db ≡ ok db'
    → db'.tokens ≡ db.tokens
unfolding release_device clear_if_bound clear_hub_bind mark_device_removed
release_device-tokens o now db db' done = ground arith

release_token-devices :
    (t : Token) (now : ℕ) (db db' : Db) → release_token t now db ≡ ok db' → db'.devices ≡ db.devices
unfolding release_token revoke_token
release_token-devices t now db db' done = ground arith

-- The token after its release.
abbrev IsRevoked : ℕ → Token → Db → Type 0
IsRevoked id t db =
    (u : Token) × (get_token_by_id db id ≡ some u)
    × (is_some u.revoked_at ≡ true)
    × (u.consumed_by_device_id ≡ t.consumed_by_device_id)

release_token-IsRevoked :
    (id now : ℕ) (t : Token) (db db' : Db)
    → get_token_by_id db id ≡ some t
    → release_token t now db ≡ ok db'
    → IsRevoked id t db'
unfolding release_token revoke_token get_token_by_id
release_token-IsRevoked id now t db db' row done = elim (Bool-cases (is_some t.revoked_at)) [
  | inl e ↦ subst (IsRevoked id t) (ok_inj db db' (rw (release_token, e) at done)) (t, row, e, refl)
  | inr e ↦
      let f : Token → Token = λ x. record x { revoked_at = coalesce x.revoked_at now } in
      let rows : db'.tokens ≡ update_where (λ (x : Token). x.id == t.id) f db.tokens =
        ground (arith, e) in
      let back : find (λ (x : Token). x.id == id) db'.tokens ≡ some (f t) =
        ap (find (λ (x : Token). x.id == id)) rows
        ∙ find-update_where (λ (x : Token). x.id == id) (λ (x : Token). x.id == t.id) f (λ x. refl)
            db.tokens t row
        ∙ rw (==_refl t.id) refl in
      (f t, back, ground (arith, e), refl)
]

abbrev shown : Option Device → Option (String × String)
shown none = none
shown (some d) = some (d.device_id, d.device_ip)

-- The release of a token that has been revoked and whose device, if it has one, is gone.
released_already :
    (loopback : Bool) (id later : ℕ) (u : Token) (db : Db) (o : Option Device)
    → loopback ≡ true
    → get_token_by_id db id ≡ some u
    → is_some u.revoked_at ≡ true
    → token_device u db ≡ o
    → ((e : Device) → o ≡ some e → is_live e ≡ false)
    → internal_release loopback id later db ≡ ok (db, shown o)
unfolding internal_release internal_token release_device release_token
released_already loopback id later u db none near row revoked none_there dead =
    rw (near, row, none_there, release_device, release_token, revoked) refl
released_already loopback id later u db (some e) near row revoked there dead =
    rw (near, row, there, release_device, dead e refl, release_token, revoked) refl

-- The devices of a token before and after its release.
abbrev SameDevice : Option Device → Option Device → Type 0
SameDevice none o = o ≡ none
SameDevice (some d) o =
    (e : Device) × (o ≡ some e)
    × (is_live e ≡ false)
    × (e.device_id ≡ d.device_id)
    × (e.device_ip ≡ d.device_ip)

token_device-released :
    (t u : Token) (now : ℕ) (db db1 db2 : Db)
    → u.consumed_by_device_id ≡ t.consumed_by_device_id
    → release_device (token_device t db) now db ≡ ok db1
    → db2.devices ≡ db1.devices
    → SameDevice (token_device t db) (token_device u db2)
unfolding token_device get_device_by_id release_device
token_device-released t u now db db1 db2 same done rows =
    elim (Option-cases t.consumed_by_device_id) [
      | inl e ↦ rw (same, e) refl
      | inr (id, e) ↦ elim (Option-cases (find (λ (x : Device). x.id == id) db.devices)) [
        | inl miss ↦
            let kept : db ≡ db1 =
              ok_inj db db1
                (rw (token_device, e, get_device_by_id, miss, release_device) at done) in
            rw (same, e, miss)
              (subst (λ (l : List Device). find (λ (x : Device). x.id == id) l ≡ none)
                (ap (λ (x : Db). x.devices) kept ∙ sym rows) miss)
        | inr (d, hit) ↦
            let g =
              release_device-IsGone id now d db db1 hit
                (rw (token_device, e, get_device_by_id, hit) at done) in
            rw (same, e, hit)
              (subst
                (λ (l : List Device). SameDevice (some d) (find (λ (x : Device). x.id == id) l))
                (sym rows) g)
      ]
    ]

shown-SameDevice : (o p : Option Device) → SameDevice o p → shown p ≡ shown o
shown-SameDevice none p e = rw e refl
shown-SameDevice (some d) p e = rw (e.1, e.3, e.4) refl

gone-SameDevice :
    (o p : Option Device) → SameDevice o p → (e : Device) → p ≡ some e → is_live e ≡ false
gone-SameDevice none p same e h = cc
gone-SameDevice (some d) p same e h =
    subst (λ (x : Device). is_live x ≡ false) (some_inj same.0 e (sym same.1 ∙ h)) same.2

shown-eq :
    (o : Option Device)
    → elim o [ none ↦ none | some d ↦ some (d.device_id, d.device_ip) ] ≡ shown o
shown-eq none = refl
shown-eq (some d) = refl

-- After a release the token is revoked and its device, if it has one, is not live, and another
-- release at whatever time changes nothing and answers the same.
pub internal_release_again :
    (loopback : Bool) (id now later : ℕ) (db : Db) (r : Db × Option (String × String))
    → internal_release loopback id now db ≡ ok r
    → (u : Token) × (get_token_by_id r.0 id ≡ some u)
      × (is_some u.revoked_at ≡ true)
      × ((d : Device) → token_device u r.0 ≡ some d → is_live d ≡ false)
      × (internal_release loopback id later r.0 ≡ ok r)
unfolding internal_release internal_token get_token_by_id
internal_release_again loopback id now later db r done =
    Ends-ok
      (λ (r : Db × Option (String × String)).
        (u : Token) × (get_token_by_id r.0 id ≡ some u)
        × (is_some u.revoked_at ≡ true)
        × ((d : Device) → token_device u r.0 ≡ some d → is_live d ≡ false)
        × (internal_release loopback id later r.0 ≡ ok r))
      (λ _. Unit) (internal_release loopback id now db) r done
      (Ends-bind _
        (Ends-bind _ (anything (require loopback loopback_only)) λ near far.
          Ends-last (λ t. (loopback ≡ true) × (get_token_by_id db id ≡ some t))
            (or_fail (get_token_by_id db id) token_not_found)
            λ t row. (
              require-eq-ok loopback loopback_only near far,
              or_fail-eq-ok (get_token_by_id db id) token_not_found t row,
            ))
        λ t (near, row).
          Ends-bind _ (anything (release_device (token_device t db) now db)) λ db1 gone.
            Ends-bind _ (anything (release_token t now db1))
              λ db2 revoked. returns _ (finish t near row db1 gone db2 revoked))
  where
    finish :
        (t : Token)
        → loopback ≡ true
        → get_token_by_id db id ≡ some t
        → (db1 : Db) → release_device (token_device t db) now db ≡ ok db1
        → (db2 : Db) → release_token t now db1 ≡ ok db2
        → (u : Token) × (get_token_by_id db2 id ≡ some u)
          × (is_some u.revoked_at ≡ true)
          × ((d : Device) → token_device u db2 ≡ some d → is_live d ≡ false)
          × (internal_release loopback id later db2
              ≡ ok (
                db2,
                elim (token_device t db) [ none ↦ none | some d ↦ some (d.device_id, d.device_ip) ],
              ))
    finish t near row db1 gone db2 revoked =
        let row1 : get_token_by_id db1 id ≡ some t =
          ap (find (λ (x : Token). x.id == id))
            (release_device-tokens (token_device t db) now db db1 gone)
          ∙ row in
        let (u, back, dead, same) = release_token-IsRevoked id now t db1 db2 row1 revoked in
        let s =
          token_device-released t u now db db1 db2 same gone
            (release_token-devices t now db1 db2 revoked) in
        (
          u,
          back,
          dead,
          gone-SameDevice (token_device t db) (token_device u db2) s,
          released_already loopback id later u db2 (token_device u db2) near back dead refl
                (gone-SameDevice (token_device t db) (token_device u db2) s)
              ∙ ap (λ x. ok (db2, x))
                  (shown-SameDevice (token_device t db) (token_device u db2) s
                    ∙ sym (shown-eq (token_device t db))),
        )
