-- ===== src/Bundles/Unique.antt =====
-- What the unique indexes of wg_bundles promise, and that every operation keeps it.
use polar_wg.Bundles.{
  same_platform, same_version, ok, or_darwin, Catalog, Bundle, set_bundle_asset_id, insert_bundle,
  delete_bundle,
}
use polar_wg.Base.{
  if◌then◌else◌, Bool, true, false, All-select, suc, All-mono, [], ◌++◌, Pairs-select, All-append,
  All-update_where, All-intro, arith, ◌∷◌, not, any-All, ◌<◌, select, any, Pairs-append, false,
  some, ◌&&◌, ◌==◌, All, str_eq, ◌≡◌, ◌≢◌, Pairs, List, Pairs-update_where, Bool, ℕ,
}
use mathlib.Core.Path.{subst}

-- An earlier row and a later one: they have different ids, different bytes, and different versions or
-- platforms, and are not both the latest of one platform.
pub record AreApart (a b : Bundle) : Type 0 where
  pub ids : a.id ≢ b.id
  pub shas : str_eq a.blob_sha256 b.blob_sha256 ≡ false
  pub versions : same_version b a ≡ false
  pub latest : (b.is_latest && (a.is_latest && same_platform b.os b.arch a)) ≡ false

pub record IsCatalog (k : Catalog) : Type 0 where
  pub apart : Pairs AreApart k.bundles
  pub fresh : All (λ (b : Bundle). b.id < k.next_bundle) k.bundles

-- The row that an insertion writes.
abbrev pub row_of : Bundle → Catalog → Bundle
row_of b k = record b { id = k.next_bundle; os = or_darwin b.os }

pub insert_bundle-eq :
    (b : Bundle) (k : Catalog) (r : Catalog × Bundle)
    → insert_bundle b k ≡ ok r
    → (any (λ (r : Bundle). str_eq r.blob_sha256 b.blob_sha256) k.bundles ≡ false)
      × (any (same_version (row_of b k)) k.bundles ≡ false)
      × ((b.is_latest
            && any (λ r. r.is_latest && same_platform (or_darwin b.os) b.arch r) k.bundles)
          ≡ false)
      × ((
        record k { bundles = k.bundles ++ row_of b k ∷ []; next_bundle = suc k.next_bundle },
        row_of b k,
      )
          ≡ r)
unfolding insert_bundle
insert_bundle-eq b k r done = (ground arith, ground arith, ground arith, ground arith)

not_both :
    (c : Bool) (p : Bundle → Bool) (xs : List Bundle)
    → (c && any p xs) ≡ false
    → All (λ x. (c && p x) ≡ false) xs
not_both c p [] e = tt
not_both c p (x ∷ xs) e = (ground arith, not_both c p xs (ground arith))

zip_apart :
    (row : Bundle) (xs : List Bundle)
    → All (λ (x : Bundle). x.id < row.id) xs
    → All (λ (x : Bundle). str_eq x.blob_sha256 row.blob_sha256 ≡ false) xs
    → All (λ (x : Bundle). same_version row x ≡ false) xs
    → All
        (λ (x : Bundle).
          (row.is_latest && (x.is_latest && same_platform row.os row.arch x)) ≡ false)
        xs
    → All (λ x. AreApart x row) xs
zip_apart row [] i s v l = tt
zip_apart row (x ∷ xs) i s v l = (
  record { ids = λ same. omega (arith, same, i.0); shas = s.0; versions = v.0; latest = l.0 },
  zip_apart row xs i.1 s.1 v.1 l.1,
)

pub insert_bundle-IsCatalog :
    (b : Bundle) (k : Catalog) (r : Catalog × Bundle)
    → IsCatalog k
    → insert_bundle b k ≡ ok r
    → IsCatalog r.0
insert_bundle-IsCatalog b k r v done =
    let e = insert_bundle-eq b k r done in
    subst (λ (r : Catalog × Bundle). IsCatalog r.0) e.3
      record {
        apart = Pairs-append AreApart k.bundles (row_of b k) v.apart (
            zip_apart (row_of b k) k.bundles v.fresh
              (any-All (λ (r : Bundle). str_eq r.blob_sha256 b.blob_sha256) k.bundles e.0)
              (any-All (same_version (row_of b k)) k.bundles e.1)
              (not_both b.is_latest (λ r. r.is_latest && same_platform (or_darwin b.os) b.arch r)
                k.bundles e.2));
        fresh =
            All-append (λ (x : Bundle). x.id < suc k.next_bundle) k.bundles (row_of b k ∷ [])
              (All-mono (λ (x : Bundle). x.id < k.next_bundle)
                (λ (x : Bundle). x.id < suc k.next_bundle) (λ x h. omega arith) k.bundles v.fresh)
              (omega arith, tt);
      }

asset-AreApart :
    (p q : Bool) (asset : ℕ) (a b : Bundle)
    → AreApart a b
    → AreApart
        (if p then record a { asset_id = some asset } else a)
        (if q then record b { asset_id = some asset } else b)
asset-AreApart true true asset a b r = record {
  ids = r.ids;
  shas = r.shas;
  versions = r.versions;
  latest = r.latest;
}
asset-AreApart true false asset a b r = record {
  ids = r.ids;
  shas = r.shas;
  versions = r.versions;
  latest = r.latest;
}
asset-AreApart false true asset a b r = record {
  ids = r.ids;
  shas = r.shas;
  versions = r.versions;
  latest = r.latest;
}
asset-AreApart false false asset a b r = r

pub set_bundle_asset_id-IsCatalog :
    (id asset : ℕ) (k : Catalog) → IsCatalog k → IsCatalog (set_bundle_asset_id id asset k)
unfolding set_bundle_asset_id
set_bundle_asset_id-IsCatalog id asset k v = record {
  apart =
      Pairs-update_where AreApart (λ (b : Bundle). Unit {0}) (λ (b : Bundle). b.id == id)
        (λ b. record b { asset_id = some asset })
        (λ a b _ _ r. asset-AreApart (a.id == id) (b.id == id) asset a b r) k.bundles
        (All-intro (λ (b : Bundle). Unit {0}) (λ b. tt) k.bundles) v.apart;
  fresh =
      All-update_where (λ (x : Bundle). x.id < k.next_bundle) (λ (x : Bundle). x.id < k.next_bundle)
        (λ (b : Bundle). b.id == id) (λ b. record b { asset_id = some asset }) (λ x e h. h)
        (λ x e h. h) k.bundles v.fresh;
}

pub delete_bundle-IsCatalog :
    (id : ℕ) (k k' : Catalog) → IsCatalog k → delete_bundle id k ≡ ok k' → IsCatalog k'
unfolding delete_bundle
delete_bundle-IsCatalog id k k' v done =
    let same : record k { bundles = select (λ b. not (b.id == id)) k.bundles } ≡ k' =
      ground arith in
    subst IsCatalog same record {
      apart = Pairs-select AreApart (λ b. not (b.id == id)) k.bundles v.apart;
      fresh =
          All-mono _ (λ (x : Bundle). x.id < k.next_bundle) (λ x h. h.1) _
            (All-select (λ (x : Bundle). x.id < k.next_bundle) (λ b. not (b.id == id)) k.bundles
              v.fresh);
    }
