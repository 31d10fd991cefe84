-- ===== src/Api/Leave.antt =====
-- What is left of a device's access after it has left, and of its old token after a refresh.
use mathlib.Core.Path.{ap, sym, subst}
use polar_wg.Store.Rows.{is_live}
use polar_wg.Net.{World}
use polar_wg.Api.{
  Hub, extended, Option, is_past, none, trim_space, false, some, ok, str_eq, Device, Db, ℕ,
  mark_device_removed, clear_hub_bind, update_device_token_hash, String, authenticate,
  token_refresh, clear_if_bound, leave,
}
use polar_wg.Errors.{ok_inj, >>=-eq-ok}
use polar_wg.Store.Devices.{remove_at, get_device_by_token_hash}
use polar_wg.Store.Hubs.{clear_hub_bind, get_hub_by_id}
use polar_wg.Store.Devices.{mark_device_removed, update_device_token_hash}
use polar_wg.Base.{
  ◌∙◌, All-update_where, ◌==◌, update_where, str_eq_iff, find-test, inr, inl, arith, All-find,
  Option-cases, find, true, ◌≢◌, ◌&&◌, ◌≡◌, All,
}

-- The device that a bearer token is accepted for is live, has the token's hash and the id that
-- the request names, and the expiry of its token is not past.
pub authenticate_sound :
    (w : World) (raw claimed : String) (now : ℕ) (db : Db) (d : Device)
    → authenticate w raw claimed now db ≡ ok d
    → (get_device_by_token_hash db (w.hash raw) ≡ some d)
      × (d.token_hash ≡ w.hash raw)
      × (is_live d ≡ true)
      × (d.device_id ≡ trim_space claimed)
      × (is_past d.token_expires_at now ≡ false)
unfolding authenticate get_device_by_token_hash
authenticate_sound w raw claimed now db d done =
    elim (Option-cases
      (find (λ (x : Device). str_eq x.token_hash (w.hash raw) && is_live x) db.devices)) [
        | inl e ↦ ground (arith, e)
        | inr (x, e) ↦
            let hit : (str_eq x.token_hash (w.hash raw) && is_live x) ≡ true =
              find-test (λ (x : Device). str_eq x.token_hash (w.hash raw) && is_live x) db.devices x
                e in
            let same : x ≡ d = ground (arith, e) in
            ground (
              arith,
              e,
              hit,
              same,
              str_eq_iff x.token_hash (w.hash raw),
              str_eq_iff x.device_id (trim_space claimed),
            )
      ]

-- A device that no live row has the hash of cannot authenticate.
refused :
    (w : World) (raw claimed : String) (now : ℕ) (db : Db) (d : Device)
    → All (λ (x : Device). (str_eq x.token_hash (w.hash raw) && is_live x) ≡ false) db.devices
    → authenticate w raw claimed now db ≢ ok d
unfolding authenticate get_device_by_token_hash
refused w raw claimed now db d none_has done =
    let miss : find (λ (x : Device). str_eq x.token_hash (w.hash raw) && is_live x) db.devices
        ≡ none =
      All-find (λ (x : Device). str_eq x.token_hash (w.hash raw) && is_live x) db.devices
        none_has in
    ground (arith, miss)

-- No live device but this one has the hash.
abbrev pub IsAlone : World → String → ℕ → Db → Type 0
IsAlone w raw id db =
    All (λ (x : Device). (str_eq x.token_hash (w.hash raw) && is_live x) ≡ true → x.id ≡ id)
      db.devices

pub clear_if_bound-devices :
    (o : Option Hub) (device now : ℕ) (db : Db)
    → (clear_if_bound o device now db).devices ≡ db.devices
unfolding clear_if_bound clear_hub_bind
clear_if_bound-devices o device now db = ground arith

pub mark_device_removed-devices :
    (id now : ℕ) (db db' : Db)
    → mark_device_removed id now db ≡ ok db'
    → db'.devices ≡ update_where (λ x. x.id == id) (remove_at now) db.devices
unfolding mark_device_removed
mark_device_removed-devices id now db db' done = ground arith

leave-devices :
    (w : World) (raw claimed : String) (now : ℕ) (db db' : Db) (d : Device)
    → authenticate w raw claimed now db ≡ ok d
    → leave w raw claimed now db ≡ ok db'
    → db'.devices ≡ update_where (λ x. x.id == d.id) (remove_at now) db.devices
unfolding leave
leave-devices w raw claimed now db db' d known done =
    let (db1, marked, rest) =
      >>=-eq-ok (mark_device_removed d.id now db)
        (λ (db1 : Db). ok (clear_if_bound (get_hub_by_id db1 d.hub_id) d.id now db1)) db'
        (rw known at done) in
    ap (λ (x : Db). x.devices)
      (sym (ok_inj (clear_if_bound (get_hub_by_id db1 d.hub_id) d.id now db1) db' rest))
    ∙ clear_if_bound-devices (get_hub_by_id db1 d.hub_id) d.id now db1
    ∙ mark_device_removed-devices d.id now db db1 marked

-- Where no other live device has its token's hash, the database that a device's leaving leaves
-- refuses the token, at whatever time and whichever device the request names.
pub leave_then_refused :
    (w : World) (raw claimed claimed' : String) (now later : ℕ) (db db' : Db) (d d' : Device)
    → authenticate w raw claimed now db ≡ ok d
    → IsAlone w raw d.id db
    → leave w raw claimed now db ≡ ok db'
    → authenticate w raw claimed' later db' ≢ ok d'
leave_then_refused w raw claimed claimed' now later db db' d d' known alone left =
    refused w raw claimed' later db' d' (
      subst (All (λ (x : Device). (str_eq x.token_hash (w.hash raw) && is_live x) ≡ false))
        (sym (leave-devices w raw claimed now db db' d known left))
        (All-update_where
          (λ (x : Device). (str_eq x.token_hash (w.hash raw) && is_live x) ≡ true → x.id ≡ d.id)
          (λ (x : Device). (str_eq x.token_hash (w.hash raw) && is_live x) ≡ false)
          (λ x. x.id == d.id) (remove_at now) (λ x e k. ground arith) (λ x e k. ground (arith, k))
          db.devices alone))

-- Where the new token has another hash and no other live device has the old one's, the database
-- that a refresh leaves refuses the old token, at whatever time and whichever device the request
-- names.
pub token_refresh_retires :
    (w : World) (raw claimed fresh claimed' : String) (now later : ℕ) (db : Db) (d d' : Device)
    (r : Db × Option ℕ)
    → authenticate w raw claimed now db ≡ ok d
    → IsAlone w raw d.id db
    → w.hash fresh ≢ w.hash raw
    → token_refresh w raw claimed fresh now db ≡ ok r
    → authenticate w raw claimed' later r.0 ≢ ok d'
unfolding token_refresh update_device_token_hash
token_refresh_retires w raw claimed fresh claimed' now later db d d' r known alone differ done =
    let same : (update_device_token_hash d.id (w.hash fresh) (extended d.token_expires_at now)
          db).devices
        ≡ r.0.devices =
      ground (arith, known) in
    refused w raw claimed' later r.0 d' (
      subst (All (λ (x : Device). (str_eq x.token_hash (w.hash raw) && is_live x) ≡ false)) same (
        All-update_where
          (λ (x : Device). (str_eq x.token_hash (w.hash raw) && is_live x) ≡ true → x.id ≡ d.id)
          (λ (x : Device). (str_eq x.token_hash (w.hash raw) && is_live x) ≡ false)
          (λ x. x.id == d.id && is_live x)
          (λ x. record x {
            token_hash = w.hash fresh;
            token_expires_at = extended d.token_expires_at now;
          })
          (λ x e k. ground (arith, differ, str_eq_iff (w.hash fresh) (w.hash raw)))
          (λ x e k. ground (arith, k)) db.devices alone))
