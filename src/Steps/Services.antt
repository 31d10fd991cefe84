-- ===== src/Steps/Services.antt =====
-- The requests of the programs on the same machine leave every seat as it is.
use polar_wg.Store.Tokens.{insert_token}
use polar_wg.Steps.Statements.{insert_token-Alike, revoke_token-Alike}
use polar_wg.Store.Hubs.{get_hub_by_slug, get_hub_by_id}
use polar_wg.Steps.Frame.{Alike-trans, devices-Alike, others-Alike, Alike}
use polar_wg.Store.Devices.{
  link_host, link_device_host_by_device_ip, mark_device_removed, link_device_host_by_pubkey,
}
use polar_wg.Mint.{new_token, MintInput, create_token_for_device}
use polar_wg.Store.Rows.{Role, configured, is_live, Hub, Db, Token, Device}
use polar_wg.Cloud.{
  token_ttl, cloud_mint, token_device, internal_token, Fresh, internal_release, internal_link,
  internal_mint, release_device, release_token, link_all,
}
use polar_wg.Api.{clear_if_bound}
use polar_wg.Net.{World}
use polar_wg.Base.{
  time_add, false, true, ◌||◌, [], str_eq, ◌+◌, none, trim_space, not, some, is_empty, arith, ◌∷◌,
  is_some, ◌&&◌, Bool-cases, List, ◌≡◌, Bool, Option, String, ℕ, if◌then◌else◌, refl, inl, inr,
}
use polar_wg.Errors.{
  hub_not_configured, hub_not_found, hub_id_not_found, label_required, hub_slug_and_label_required,
  host_id_required, loopback_only, ok_inj, or_fail, require, >>=-eq-ok, ok,
}
use polar_wg.Errors.Ends.{Ends-last, anything, Ends-bind, Ends-ok, returns}
use mathlib.Core.Path.{subst}
use polar_wg.Steps.Requests.{removed_and_cleared}

module _ (w : World) where
  pub release_device-Alike :
      (o : Option Device) (now : ℕ) (db db' : Db)
      → release_device o now db ≡ ok db'
      → Alike w db db'
  unfolding release_device
  release_device-Alike none now db db' done =
      others-Alike w db db' (ground arith) (ground arith) (ground arith) (ground arith)
        (ground arith)
  release_device-Alike (some d) now db db' done = elim (Bool-cases (is_live d)) [
    | inr e ↦
        let same : db ≡ db' = ok_inj db db' (rw (release_device, e) at done) in
        subst (Alike w db) same (others-Alike w db db refl refl refl refl refl)
    | inl e ↦
        let (db1, marked, back) =
          >>=-eq-ok (mark_device_removed d.id now db)
            (λ (db1 : Db). ok (clear_if_bound (get_hub_by_id db1 d.hub_id) d.id now db1)) db'
            (rw (release_device, e) at done) in
        subst (Alike w db) (ok_inj _ db' back)
          (removed_and_cleared w d.hub_id d.id now db db1 marked)
  ]

  pub release_token-Alike :
      (t : Token) (now : ℕ) (db db' : Db) → release_token t now db ≡ ok db' → Alike w db db'
  unfolding release_token
  release_token-Alike t now db db' done = elim (Bool-cases (is_some t.revoked_at)) [
    | inl e ↦
        let same : db ≡ db' = ok_inj db db' (rw (release_token, e) at done) in
        subst (Alike w db) same (others-Alike w db db refl refl refl refl refl)
    | inr e ↦ revoke_token-Alike w t.id now db db' (rw (release_token, e) at done)
  ]

  pub internal_release-Alike :
      (loopback : Bool) (id now : ℕ) (db : Db) (r : Db × Option (String × String))
      → internal_release loopback id now db ≡ ok r
      → Alike w db r.0
  unfolding internal_release
  internal_release-Alike loopback id now db r done =
      Ends-ok (λ (r : Db × Option (String × String)). Alike w db r.0) (λ _. Unit)
        (internal_release loopback id now db) r done
        (Ends-bind _ (anything (internal_token loopback id db)) λ t _.
          Ends-bind _ (anything (release_device (token_device t db) now db)) λ db1 gone.
            Ends-bind _ (anything (release_token t now db1)) λ db2 revoked. returns _ (
              Alike-trans w db db1 db2 (release_device-Alike (token_device t db) now db db1 gone)
                (release_token-Alike t now db1 db2 revoked)))

  link_all-Alike :
      (link : String → Db → Db × ℕ)
      → ((s : String) (db : Db) → Alike w db (link s db).0)
      → (ss : List String) (at : Db × ℕ) → Alike w at.0 (link_all link ss at).0
  unfolding link_all
  link_all-Alike link each [] at = others-Alike w at.0 at.0 refl refl refl refl refl
  link_all-Alike link each (s ∷ ss) (db, n) =
      Alike-trans w db (next (is_empty (trim_space s))).0
        (link_all link ss (next (is_empty (trim_space s)))).0 (one (is_empty (trim_space s)))
        (link_all-Alike link each ss (next (is_empty (trim_space s))))
    where
      next : Bool → Db × ℕ
      next b = if b then (db, n) else (let (db1, k) = link (trim_space s) db in (db1, n + k))

      one : (b : Bool) → Alike w db (next b).0
      one true = others-Alike w db db refl refl refl refl refl
      one false = each (trim_space s) db

  link_host-Alike :
      (p : Device → Bool) (host_id : String) (db : Db) → Alike w db (link_host p host_id db).0
  link_host-Alike p host_id db =
      devices-Alike w (λ d. p d && is_live d && not (str_eq d.host_id host_id))
        (λ d. record d { host_id = host_id }) db _ refl refl refl refl refl
        λ d. record {
          id = refl;
          hub_id = refl;
          site_id = refl;
          d_index = refl;
          device_ip = refl;
          live = λ live. live;
        }

  pub internal_link-Alike :
      (loopback : Bool) (host_id : String) (pubkeys ips : List String) (db : Db) (r : Db × ℕ)
      → internal_link loopback host_id pubkeys ips db ≡ ok r
      → Alike w db r.0
  unfolding internal_link link_device_host_by_pubkey link_device_host_by_device_ip
  internal_link-Alike loopback host_id pubkeys ips db r done =
      Ends-ok (λ (r : Db × ℕ). Alike w db r.0) (λ _. Unit)
        (internal_link loopback host_id pubkeys ips db) r done
        (Ends-bind _ (anything (require loopback loopback_only)) λ _ _.
          Ends-bind _ (anything (require (not (is_empty (trim_space host_id))) host_id_required))
            λ _ _. returns _ (
              Alike-trans w db
                (link_all (λ pk. link_device_host_by_pubkey pk (trim_space host_id)) pubkeys
                  (db, 0)).0
                _
                (link_all-Alike (λ pk. link_device_host_by_pubkey pk (trim_space host_id))
                  (λ s x. link_host-Alike _ _ x) pubkeys (db, 0))
                (link_all-Alike (λ ip. link_device_host_by_device_ip ip (trim_space host_id))
                  (λ s x. link_host-Alike _ _ x) ips
                  (link_all (λ pk. link_device_host_by_pubkey pk (trim_space host_id)) pubkeys
                    (db, 0)))))

  pub create_token_for_device-Alike :
      (m : MintInput) (hub_id : ℕ) (db : Db) (r : Db × Token)
      → create_token_for_device w m hub_id db ≡ ok r
      → Alike w db r.0
  unfolding create_token_for_device
  create_token_for_device-Alike m hub_id db r done =
      Ends-ok (λ (r : Db × Token). Alike w db r.0) (λ _. Unit)
        (create_token_for_device w m hub_id db) r done
        (Ends-bind _ (anything (require (not (is_empty (trim_space m.label))) label_required))
          λ _ _. Ends-bind _ (anything (or_fail (get_hub_by_id db hub_id) hub_id_not_found)) λ h _.
            Ends-last (λ (r : Db × Token). Alike w db r.0)
              (insert_token (new_token w m Role.device h.id none none) db)
              (insert_token-Alike w (new_token w m Role.device h.id none none) db))

  pub internal_mint-Alike :
      (loopback : Bool) (slug label : String) (ttl : ℕ) (f : Fresh) (now : ℕ) (db : Db)
      (r : Db × Token × Hub)
      → internal_mint w loopback slug label ttl f now db ≡ ok r
      → Alike w db r.0
  unfolding internal_mint
  internal_mint-Alike loopback slug label ttl f now db r done =
      Ends-ok (λ (r : Db × Token × Hub). Alike w db r.0) (λ _. Unit)
        (internal_mint w loopback slug label ttl f now db) r done
        (Ends-bind _ (anything (require loopback loopback_only)) λ _ _.
          Ends-bind _
            (anything (
              require (not (is_empty (trim_space slug) || is_empty (trim_space label)))
                hub_slug_and_label_required))
            λ _ _.
              Ends-bind _ (anything (or_fail (get_hub_by_slug db (trim_space slug)) hub_not_found))
                λ h _. Ends-bind _ (anything (require (configured h) hub_not_configured)) λ _ _.
                  Ends-bind _
                    (Ends-last (λ (at : Db × Token). Alike w db at.0)
                      (create_token_for_device w
                        (cloud_mint f (trim_space label) (time_add now (token_ttl ttl)) now) h.id
                        db)
                      (λ at.
                        create_token_for_device-Alike
                          (cloud_mint f (trim_space label) (time_add now (token_ttl ttl)) now) h.id
                          db at))
                    λ at same. returns _ same)
