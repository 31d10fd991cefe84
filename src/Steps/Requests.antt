-- ===== src/Steps/Requests.antt =====
-- The requests of a device and of the operator that leave every seat as it is.
use polar_wg.Store.Links.{create_hub_link}
use polar_wg.Steps.Statements.{
  update_device_egress_hub-Alike, create_hub_link-Alike, insert_heartbeat-Alike,
  clear_if_bound-Alike, update_device_token_hash-Alike, mark_device_removed-Alike,
}
use polar_wg.Store.Hubs.{get_hub_by_id}
use polar_wg.Steps.Frame.{Alike-trans, Alike}
use polar_wg.Store.Devices.{update_device_egress_hub, get_device_by_id, mark_device_removed}
use polar_wg.Store.Rows.{is_live, HubLink, Db, Device}
use polar_wg.Admin.{device_update, link_create, device_remove}
use polar_wg.Api.{extended, authenticate, clear_if_bound, Beat, heartbeat, token_refresh, leave}
use polar_wg.Net.{World}
use polar_wg.Base.{ltb, ◌&&◌, ◌≡◌, Option, String, ℕ}
use polar_wg.Errors.{hub_id_invalid, no_rows, ok_inj, or_fail, require, >>=-eq-ok, ok, ◌>>=◌}
use polar_wg.Errors.Ends.{Ends-last, anything, Ends-bind, Ends-ok, returns}
use mathlib.Core.Path.{subst}

module _ (w : World) where
  pub removed_and_cleared :
      (hub_id id now : ℕ) (db db1 : Db)
      → mark_device_removed id now db ≡ ok db1
      → Alike w db (clear_if_bound (get_hub_by_id db1 hub_id) id now db1)
  removed_and_cleared hub_id id now db db1 done =
      Alike-trans w db db1 (clear_if_bound (get_hub_by_id db1 hub_id) id now db1)
        (mark_device_removed-Alike w id now db db1 done)
        (clear_if_bound-Alike w (get_hub_by_id db1 hub_id) id now db1)

  pub leave-Alike :
      (raw claimed : String) (now : ℕ) (db db' : Db)
      → leave w raw claimed now db ≡ ok db'
      → Alike w db db'
  unfolding leave
  leave-Alike raw claimed now db db' done =
      Ends-ok (Alike w db) (λ _. Unit) (leave w raw claimed now db) db' done
        (Ends-bind _ (anything (authenticate w raw claimed now db)) λ d _.
          Ends-bind _ (anything (mark_device_removed d.id now db))
            λ db1 marked. returns _ (removed_and_cleared d.hub_id d.id now db db1 marked))

  pub token_refresh-Alike :
      (raw claimed fresh : String) (now : ℕ) (db : Db) (r : Db × Option ℕ)
      → token_refresh w raw claimed fresh now db ≡ ok r
      → Alike w db r.0
  unfolding token_refresh
  token_refresh-Alike raw claimed fresh now db r done =
      Ends-ok (λ (r : Db × Option ℕ). Alike w db r.0) (λ _. Unit)
        (token_refresh w raw claimed fresh now db) r done
        (Ends-bind _ (anything (authenticate w raw claimed now db)) λ d _. returns _ (
          update_device_token_hash-Alike w d.id (w.hash fresh) (extended d.token_expires_at now)
            db))

  pub heartbeat-Alike :
      (raw claimed : String) (b : Beat) (now : ℕ) (db db' : Db)
      → heartbeat w raw claimed b now db ≡ ok db'
      → Alike w db db'
  unfolding heartbeat
  heartbeat-Alike raw claimed b now db db' done =
      Ends-ok (Alike w db) (λ _. Unit) (heartbeat w raw claimed b now db) db' done
        (Ends-bind _ (anything (authenticate w raw claimed now db))
          λ d _. returns _ (insert_heartbeat-Alike w _ now db))

  pub link_create-Alike :
      (a b now : ℕ) (db : Db) (r : Db × HubLink) → link_create a b now db ≡ ok r → Alike w db r.0
  unfolding link_create
  link_create-Alike a b now db r done =
      let (_, _, rest) =
        >>=-eq-ok (require (ltb 0 a && ltb 0 b) hub_id_invalid) (λ _. create_hub_link a b now db) r
          done in
      create_hub_link-Alike w a b now db r rest

  pub device_update-Alike :
      (id : ℕ) (egress : Option ℕ) (db db' : Db)
      → device_update id egress db ≡ ok db'
      → Alike w db db'
  unfolding device_update
  device_update-Alike id egress db db' done =
      Ends-ok (Alike w db) (λ _. Unit) (device_update id egress db) db' done
        (Ends-bind _ (anything (or_fail (get_device_by_id db id) no_rows)) λ d _.
          Ends-bind _ (anything (require (is_live d) no_rows)) λ _ _.
            Ends-bind _ (anything _) λ _ _.
              Ends-last (Alike w db) (update_device_egress_hub id egress db)
                (update_device_egress_hub-Alike w id egress db))

  pub device_remove-Alike :
      (id now : ℕ) (db db' : Db) → device_remove id now db ≡ ok db' → Alike w db db'
  unfolding device_remove
  device_remove-Alike id now db db' done =
      let (d, found, rest) =
        >>=-eq-ok (or_fail (get_device_by_id db id) no_rows)
          (λ (d : Device). mark_device_removed id now db >>= λ db1.
            ok (clear_if_bound (get_hub_by_id db1 d.hub_id) d.id now db1))
          db' done in
      let (db1, marked, back) =
        >>=-eq-ok (mark_device_removed id now db)
          (λ (db1 : Db). ok (clear_if_bound (get_hub_by_id db1 d.hub_id) d.id now db1)) db' rest in
      subst (Alike w db) (ok_inj _ db' back) (
        Alike-trans w db db1 _ (mark_device_removed-Alike w id now db db1 marked)
          (clear_if_bound-Alike w (get_hub_by_id db1 d.hub_id) d.id now db1))
