-- ===== src/Bundles/Uploads.antt =====
-- An upload, whole: the row, its asset and its mark.
use polar_wg.Bundles.Marks.{set_bundle_latest-IsCatalog}
use polar_wg.Bundles.Unique.{insert_bundle-IsCatalog, set_bundle_asset_id-IsCatalog, IsCatalog}
use polar_wg.Bundles.{
  set_bundle_asset_id, uploaded, insert_bundle, bundle_exists, get_bundle_by_sha, bundle_empty,
  require, err, set_bundle_latest, ok, if_marked, Result, Bundle, Upload, Catalog, upload_bundle,
}
use polar_wg.Base.{is_some, not, ltb, false, true, ◌≡◌, Bool, if◌then◌else◌, refl}
use polar_wg.Errors.Ends.{anything, Ends-bind, Ends-ok, returns}

if_marked-IsCatalog :
    (k : Catalog) (b : Bundle) (m : Result Catalog)
    → IsCatalog k
    → ((k' : Catalog) → m ≡ ok k' → IsCatalog k')
    → IsCatalog (if_marked k b m).0
if_marked-IsCatalog k b (ok k') v f = f k' refl
if_marked-IsCatalog k b (err e) v f = v

finished-IsCatalog :
    (latest : Bool) (k : Catalog) (b : Bundle)
    → IsCatalog k
    → IsCatalog (if latest then if_marked k b (set_bundle_latest b.id k) else (k, b)).0
finished-IsCatalog true k b v =
    if_marked-IsCatalog k b (set_bundle_latest b.id k) v
      (λ k' done. set_bundle_latest-IsCatalog b.id k k' v done)
finished-IsCatalog false k b v = v

-- An upload that succeeds keeps the catalog: no two bundles have the same id, the same bytes, or
-- the same version and platform, no two are the latest of one platform, and ids are below the
-- next one.
pub upload_bundle-IsCatalog :
    (u : Upload) (k : Catalog) (r : Catalog × Bundle)
    → IsCatalog k
    → upload_bundle u k ≡ ok r
    → IsCatalog r.0
unfolding upload_bundle
upload_bundle-IsCatalog u k r v done =
    Ends-ok (λ (r : Catalog × Bundle). IsCatalog r.0) (λ _. Unit) (upload_bundle u k) r done
      (Ends-bind _ (anything (require (ltb 0 u.size) bundle_empty)) λ _ _.
        Ends-bind _
          (anything (require (not (is_some (get_bundle_by_sha k u.sha256))) bundle_exists))
          λ _ _. Ends-bind _ (anything (insert_bundle (uploaded u) k)) λ at done. returns _ (
            finished-IsCatalog u.set_latest (set_bundle_asset_id at.1.id u.asset at.0) at.1 (
              set_bundle_asset_id-IsCatalog at.1.id u.asset at.0
                (insert_bundle-IsCatalog (uploaded u) k at v done))))
