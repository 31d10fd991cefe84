-- ===== src/Bundles/Lookup.antt =====
-- Where the redirect to the latest bundle leads.
use polar_wg.Bundles.Unique.{AreApart, IsCatalog}
use polar_wg.Bundles.{
  same_version, or_darwin, first_of_two, Catalog, Bundle, get_latest_bundle_for,
  get_bundle_for_version, for_arch,
}
use polar_wg.Base.{
  [], find-All, false, some_inj, Bool-cases, ◌∷◌, find-test, none, str_eq_iff, find, Pairs,
  is_empty, arith, ◌⊎◌, List, some, true, str_eq, ◌≡◌, ◌&&◌, Bool, Option, String, refl, inl, inr,
}
use mathlib.Core.Path.{subst}

-- The row of a version on a platform, as the download looks for it.
abbrev is_row : String → String → String → Bundle → Bool
is_row version os arch b = (str_eq b.version version && str_eq b.os os) && str_eq b.arch arch

is_row-own : (b : Bundle) → is_row b.version b.os b.arch b ≡ true
is_row-own b =
    ground (arith, str_eq_iff b.version b.version, str_eq_iff b.os b.os, str_eq_iff b.arch b.arch)

find-is_row :
    (q : Bundle → Bool) (xs : List Bundle) (b : Bundle)
    → Pairs AreApart xs
    → find q xs ≡ some b
    → find (is_row b.version b.os b.arch) xs ≡ some b
find-is_row q [] b v e = cc
find-is_row q (x ∷ xs) b v e = elim (Bool-cases (q x)) [
  | inl t ↦
      let same : x ≡ b = some_inj x b (rw t at e) in
      subst (λ (c : Bundle). find (is_row c.version c.os c.arch) (x ∷ xs) ≡ some c) same
        (rw (is_row-own x) refl)
  | inr t ↦
      let later : find q xs ≡ some b = rw t at e in
      let other : same_version b x ≡ false = (find-All (AreApart x) q xs b v.0 later).versions in
      let miss : is_row b.version b.os b.arch x ≡ false = ground arith in
      rw miss (find-is_row q xs b v.1 later)
]

first_of_two-cases :
    (a c : Option Bundle) (b : Bundle) → first_of_two a c ≡ some b → (a ≡ some b) ⊎ (c ≡ some b)
first_of_two-cases none c b e = inr e
first_of_two-cases (some a) c b e = inl e

os_of :
    (os arch : String) (b : Bundle)
    → ((b.is_latest && str_eq b.os os) && str_eq b.arch arch) ≡ true
    → b.os ≡ os
os_of os arch b e = ground (arith, str_eq_iff b.os os)

os_of_any :
    (os : String) (b : Bundle)
    → ((b.is_latest && str_eq b.os os) && is_empty b.arch) ≡ true
    → b.os ≡ os
os_of_any os b e = ground (arith, str_eq_iff b.os os)

-- Where the rows keep the unique indexes and a platform has a latest bundle, of its own
-- architecture or universal, a download of that bundle's version for its architecture finds this
-- bundle.
pub redirect_serves_latest :
    (k : Catalog) (os arch : String) (b : Bundle)
    → IsCatalog k
    → get_latest_bundle_for k os arch ≡ some b
    → get_bundle_for_version k b.version os b.arch ≡ some b
unfolding get_latest_bundle_for get_bundle_for_version for_arch
redirect_serves_latest k os arch b v e =
    elim (first_of_two-cases
      (find (λ b. (b.is_latest && str_eq b.os (or_darwin os)) && str_eq b.arch arch) k.bundles)
      (find (λ b. (b.is_latest && str_eq b.os (or_darwin os)) && is_empty b.arch) k.bundles) b e) [
        | inl hit ↦
            found (λ b. (b.is_latest && str_eq b.os (or_darwin os)) && str_eq b.arch arch) hit
              (os_of (or_darwin os) arch b (find-test _ k.bundles b hit))
        | inr hit ↦
            found (λ b. (b.is_latest && str_eq b.os (or_darwin os)) && is_empty b.arch) hit
              (os_of_any (or_darwin os) b (find-test _ k.bundles b hit))
      ]
  where
    found :
        (q : Bundle → Bool)
        → find q k.bundles ≡ some b
        → b.os ≡ or_darwin os
        → first_of_two (find (is_row b.version (or_darwin os) b.arch) k.bundles) (
            find
              (λ x. (str_eq x.version b.version && str_eq x.os (or_darwin os)) && is_empty x.arch)
              k.bundles)
          ≡ some b
    found q hit own =
        let row : find (is_row b.version (or_darwin os) b.arch) k.bundles ≡ some b =
          subst (λ o. find (is_row b.version o b.arch) k.bundles ≡ some b) own
            (find-is_row q k.bundles b v.apart hit) in
        rw row refl
