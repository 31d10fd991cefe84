-- ===== src/Steps/Statements.antt =====
-- The statements and the requests that leave every seat as it is.
use polar_wg.Steps.Frame.{others-Alike, hubs-Alike, devices-Alike, Alike-trans, Alike}
use polar_wg.Alloc.Input.{Allocated, RegisterInput}
use polar_wg.Store.Rows.{is_live, HubLink, Db, Hub, Heartbeat, Device, Token}
use polar_wg.Api.{clear_if_bound}
use polar_wg.Store.Hubs.{unbind, clear_hub_bind}
use polar_wg.Alloc.{refresh, refresh_existing_device}
use polar_wg.Store.Links.{upsert_link, create_hub_link, delete_hub_link}
use polar_wg.Gc.{remove_victims, remove_victim}
use polar_wg.Store.Devices.{
  heard, remove_at, mark_device_removed, insert_heartbeat, update_device_egress_hub,
  update_device_token_hash,
}
use polar_wg.Store.Tokens.{insert_token, revoke_token}
use polar_wg.Net.{World}
use polar_wg.Base.{
  none, inr, inl, refl, is_some_of, [], Bool-cases, ◌&&◌, update_where, ◌∷◌, some, arith, ◌==◌, ◌≡◌,
  String, List, Option, ℕ,
}
use polar_wg.Errors.{ok}

module _ (w : World) where
  pub mark_device_removed-Alike :
      (id now : ℕ) (db db' : Db) → mark_device_removed id now db ≡ ok db' → Alike w db db'
  unfolding mark_device_removed
  mark_device_removed-Alike id now db db' done =
      devices-Alike w (λ d. d.id == id) (remove_at now) db db' (ground arith) (ground arith)
        (ground arith) (ground arith) (ground arith)
        λ d. record {
          id = refl;
          hub_id = refl;
          site_id = refl;
          d_index = refl;
          device_ip = refl;
          live = λ live. ground arith;
        }

  pub clear_hub_bind-Alike : (id now : ℕ) (db : Db) → Alike w db (clear_hub_bind id now db)
  unfolding clear_hub_bind
  clear_hub_bind-Alike id now db =
      hubs-Alike w (λ h. h.id == id) (unbind now) db
        λ h. record { id = refl; mesh_cidr = refl; wg_ip = refl }

  pub clear_if_bound-Alike :
      (o : Option Hub) (id now : ℕ) (db : Db) → Alike w db (clear_if_bound o id now db)
  unfolding clear_if_bound
  clear_if_bound-Alike none id now db = others-Alike w db db refl refl refl refl refl
  clear_if_bound-Alike (some h) id now db = elim (Bool-cases (is_some_of h.bound_device_id id)) [
    | inl e ↦ rw e (clear_hub_bind-Alike h.id now db)
    | inr e ↦ rw e (others-Alike w db db refl refl refl refl refl)
  ]

  pub revoke_token-Alike :
      (id now : ℕ) (db db' : Db) → revoke_token id now db ≡ ok db' → Alike w db db'
  unfolding revoke_token
  revoke_token-Alike id now db db' done =
      others-Alike w db db' (ground arith) (ground arith) (ground arith) (ground arith)
        (ground arith)

  pub insert_token-Alike :
      (t : Token) (db : Db) (r : Db × Token) → insert_token t db ≡ ok r → Alike w db r.0
  unfolding insert_token
  insert_token-Alike t db r done =
      others-Alike w db r.0 (ground arith) (ground arith) (ground arith) (ground arith)
        (ground arith)

  pub create_hub_link-Alike :
      (a b now : ℕ) (db : Db) (r : Db × HubLink)
      → create_hub_link a b now db ≡ ok r
      → Alike w db r.0
  unfolding create_hub_link upsert_link
  create_hub_link-Alike a b now db r done =
      others-Alike w db r.0 (ground arith) (ground arith) (ground arith) (ground arith)
        (ground arith)

  pub delete_hub_link-Alike :
      (id : ℕ) (db db' : Db) → delete_hub_link id db ≡ ok db' → Alike w db db'
  unfolding delete_hub_link
  delete_hub_link-Alike id db db' done =
      others-Alike w db db' (ground arith) (ground arith) (ground arith) (ground arith)
        (ground arith)

  pub update_device_egress_hub-Alike :
      (id : ℕ) (egress : Option ℕ) (db db' : Db)
      → update_device_egress_hub id egress db ≡ ok db'
      → Alike w db db'
  unfolding update_device_egress_hub
  update_device_egress_hub-Alike id egress db db' done =
      devices-Alike w (λ d. d.id == id && is_live d) (λ d. record d { egress_hub_id = egress }) db
        db' (ground arith) (ground arith) (ground arith) (ground arith) (ground arith)
        λ d. record {
          id = refl;
          hub_id = refl;
          site_id = refl;
          d_index = refl;
          device_ip = refl;
          live = λ live. live;
        }

  pub update_device_token_hash-Alike :
      (id : ℕ) (hash : String) (expires : Option ℕ) (db : Db)
      → Alike w db (update_device_token_hash id hash expires db)
  unfolding update_device_token_hash
  update_device_token_hash-Alike id hash expires db =
      devices-Alike w (λ d. d.id == id && is_live d)
        (λ d. record d { token_hash = hash; token_expires_at = expires }) db _ refl refl refl refl
        refl
        λ d. record {
          id = refl;
          hub_id = refl;
          site_id = refl;
          d_index = refl;
          device_ip = refl;
          live = λ live. live;
        }

  pub insert_heartbeat-Alike :
      (b : Heartbeat) (now : ℕ) (db : Db) → Alike w db (insert_heartbeat b now db)
  unfolding insert_heartbeat
  insert_heartbeat-Alike b now db =
      devices-Alike w (λ d. d.id == b.device_id) (heard b now) db _ refl refl refl refl refl
        λ d. record {
          id = refl;
          hub_id = refl;
          site_id = refl;
          d_index = refl;
          device_ip = refl;
          live = λ live. live;
        }

  pub refresh_existing_device-Alike :
      (d : Device) (i : RegisterInput) (t : Token) (h : Hub) (db : Db) (r : Db × Allocated)
      → refresh_existing_device d i t h db ≡ ok r
      → Alike w db r.0
  unfolding refresh_existing_device
  refresh_existing_device-Alike d i t h db r done =
      devices-Alike w (λ (x : Device). x.id == d.id) (refresh i) db r.0 (ground arith)
        (ground arith) (ground arith) (ground arith) (ground arith)
        λ d. record {
          id = refl;
          hub_id = refl;
          site_id = refl;
          d_index = refl;
          device_ip = refl;
          live = λ live. live;
        }

  pub remove_victim-Alike : (now id : ℕ) (db : Db) → Alike w db (remove_victim now id db)
  unfolding remove_victim
  remove_victim-Alike now id db =
      Alike-trans w db
        (record db {
          devices =
              update_where (λ (d : Device). d.id == id && is_live d)
                (λ d. record d { removed_at = some now }) db.devices;
        })
        (remove_victim now id db)
        (devices-Alike w (λ d. d.id == id && is_live d) (λ d. record d { removed_at = some now }) db
          _ refl refl refl refl refl
          λ d. record {
            id = refl;
            hub_id = refl;
            site_id = refl;
            d_index = refl;
            device_ip = refl;
            live = λ live. cc;
          })
        (hubs-Alike w (λ (h : Hub). is_some_of h.bound_device_id id) (unbind now)
          (record db {
            devices =
                update_where (λ (d : Device). d.id == id && is_live d)
                  (λ d. record d { removed_at = some now }) db.devices;
          })
          λ h. record { id = refl; mesh_cidr = refl; wg_ip = refl })

  pub remove_victims-Alike :
      (now : ℕ) (victims : List Device) (db : Db) → Alike w db (remove_victims now victims db)
  unfolding remove_victims
  remove_victims-Alike now [] db = others-Alike w db db refl refl refl refl refl
  remove_victims-Alike now (d ∷ victims) db =
      Alike-trans w db (remove_victim now d.id db)
        (remove_victims now victims (remove_victim now d.id db)) (remove_victim-Alike now d.id db)
        (remove_victims-Alike now victims (remove_victim now d.id db))
