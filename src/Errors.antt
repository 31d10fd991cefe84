-- ===== src/Errors.antt =====
-- The errors of the control plane as values: the `err…` variables and the `errors.New` and
-- `fmt.Errorf` messages of internal/wg, and what PostgreSQL answers under
-- scripts/migrate/wg-schema.sql. The text of a message is not kept, only which one it is.

pub mod Ends
use polar_wg.Base.{inr, inl, ◌⊎◌, ◌≡◌, refl, Bool, true, false, Option, none, some, arith}

-- The unique indexes and checks of the schema.
pub data Constraint : Type 0 where
  hubs_slug sites_slug sites_hub_sindex sites_sindex_check : Constraint
  tokens_hash devices_device_id devices_device_ip devices_pubkey devices_site_dindex : Constraint
  devices_dindex_check hub_links_hub_fk bundles_sha bundles_version_platform : Constraint
  bundles_latest_platform : Constraint

pub data Error : Type 0 where
  token_invalid token_expired token_revoked token_no_hub token_already_bound : Error
  pubkey_taken hub_already_bound hub_not_configured unknown_role : Error
  site_exhausted site_slots_exhausted : Error
  pubkey_required pubkey_too_long : Error
  mesh_cidr_required invalid_cidr not_ipv4 mesh_overlaps no_free_mesh : Error
  empty_route invalid_route route_overlaps : Error
  invalid_dns_server invalid_dns_mode doh_url_required invalid_proxy invalid_pac_url : Error
  hub_id_invalid role_invalid egress_hub_not_found unauthorized not_the_hub no_advertised_routes
        no_subnet_routes :
      Error
  hub_slug_required label_required hub_id_not_found public_endpoint_required : Error
  hub_slug_live hub_slug_mismatch hub_has_live_devices link_to_itself : Error
  bundle_incomplete bundle_empty bundle_exists no_latest_bundle no_bundle no_asset
        version_required :
      Error
  loopback_only hub_slug_and_label_required hub_not_found token_not_found host_id_required : Error
  missing_bearer invalid_session admin_role_required access_check_failed not_granted no_route :
      Error
  db_dsn_required dock_base_required plugin_token_required db_open_failed db_ping_failed : Error
  dock_ping_failed dock_rejected : Error
  cross_hub_query empty_dump empty_wgctl short_interface_row server_required no_server_line : Error
  -- sql.ErrNoRows
  no_rows : Error
  -- a constraint that a statement would break
  violates : Constraint → Error
  -- SQLSTATE 40001: "could not serialize access"
  could_not_serialize : Error

pub data Result {ℓ} (T : Type ℓ) : Type ℓ where
  err : Error → Result T
  ok : T → Result T

-- A chain of steps stops at the first error.
abbrev pub ◌>>=◌ {ℓ κ} : {S : Type ℓ} {T : Type κ} → Result S → (S → Result T) → Result T
err e >>= rest = err e
ok s >>= rest = rest s

abbrev pub ◌>>◌ {ℓ} : {T : Type ℓ} → Result (Unit {0}) → Result T → Result T
step >> rest = step >>= λ done. rest

infixl 5 ◌>>=◌ ◌>>◌
-- `if !b { return err }`
abbrev pub require : Bool → Error → Result (Unit {0})
require true e = ok tt
require false e = err e

-- `if x == nil { return err }`
abbrev pub or_fail {ℓ} : {T : Type ℓ} → Option T → Error → Result T
or_fail (some t) failure = ok t
or_fail none failure = err failure

-- Inversion of a successful bind.
pub >>=-eq-ok {ℓ κ} :
    {S : Type ℓ} {T : Type κ} (step : Result S) (rest : S → Result T) (t : T)
    → (step >>= rest) ≡ ok t
    → (s : S) × (step ≡ ok s) × (rest s ≡ ok t)
>>=-eq-ok (err e) rest t h = cc
>>=-eq-ok (ok s) rest t h = (s, refl, h)

pub or_fail-eq-ok {ℓ} :
    {A : Type ℓ} (o : Option A) (e : Error) (a : A) → or_fail o e ≡ ok a → o ≡ some a
or_fail-eq-ok none e a h = cc
or_fail-eq-ok (some b) e a h = ground arith

pub require-eq-ok : (b : Bool) (e : Error) (t : Unit {0}) → require b e ≡ ok t → b ≡ true
require-eq-ok true e t h = refl
require-eq-ok false e t h = cc

pub Result-cases {ℓ} :
    {A : Type ℓ} (m : Result A) → ((a : A) × (m ≡ ok a)) ⊎ ((e : Error) × (m ≡ err e))
Result-cases (ok a) = inl (a, refl)
Result-cases (err e) = inr (e, refl)

pub ok_inj {ℓ} : {A : Type ℓ} (a b : A) → ok a ≡ ok b → a ≡ b
ok_inj a b e = cc
