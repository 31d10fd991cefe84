-- ===== src/Bundles/Latest.antt =====
-- Which bundle of a platform is the latest, as a map from platforms, and how the operations change the
-- map.
use polar_wg.Bundles.Unique.{AreApart, IsCatalog}
use polar_wg.Bundles.{
  ok, same_platform, mark, unmark, Catalog, Bundle, mark_latest, set_bundle_latest,
  get_bundle_by_id,
}
use polar_wg.Base.{
  find-test, ◌∙◌, find-any_of, All-mono, str_eq_iff, arith, some_inj, [], Bool-cases, some, true,
  false, find, ◌&&◌, ◌≡◌, any, ◌∷◌, ◌==◌, str_eq, Pairs, All, Bool, none, Option, String, List, ℕ,
  if◌then◌else◌, refl, inl, inr,
}
use polar_wg.Errors.{ok_inj}
use mathlib.Core.Path.{subst, sym}

-- The id of the latest bundle of each platform.
abbrev pub latest_in : List Bundle → String → String → Option ℕ
latest_in [] os arch = none
latest_in (b ∷ bundles) os arch =
    let rest = latest_in bundles os arch in
    if b.is_latest && same_platform os arch b then some b.id else rest

-- The map with another value at one platform.
abbrev pub put : String → String → ℕ → (String → String → Option ℕ) → String → String → Option ℕ
put os arch id map o a = if str_eq os o && str_eq arch a then some id else map o a

-- The rows that have the id are rows of the platform.
abbrev pub IsOf : ℕ → String → String → Bundle → Type 0
IsOf id os arch b = (b.id == id) ≡ true → same_platform os arch b ≡ true

two_platforms :
    (o a os arch : String) (b : Bundle)
    → (str_eq os o && str_eq arch a) ≡ false
    → same_platform os arch b ≡ true
    → same_platform o a b ≡ false
two_platforms o a os arch b differ own = elim (Bool-cases (same_platform o a b)) [
  | inr e ↦ e
  | inl e ↦
      let os_is : b.os ≡ os = ground (arith, str_eq_iff b.os os) in
      let o_is : b.os ≡ o = ground (arith, str_eq_iff b.os o) in
      let arch_is : b.arch ≡ arch = ground (arith, str_eq_iff b.arch arch) in
      let a_is : b.arch ≡ a = ground (arith, str_eq_iff b.arch a) in
      ground (arith, str_eq_iff os o, str_eq_iff arch a, sym os_is ∙ o_is, sym arch_is ∙ a_is)
]

module _ (id : ℕ) (os arch : String) where
  abbrev stale : Bundle → Bool
  stale b = b.is_latest && same_platform os arch b

  -- One row after the two updates.
  abbrev remarked : Bundle → Bundle
  remarked b = let c = if stale b then unmark b else b in if c.id == id then mark c else c

  latest_elsewhere :
      (o a : String) (xs : List Bundle)
      → (str_eq os o && str_eq arch a) ≡ false
      → All (IsOf id os arch) xs
      → latest_in (mark_latest id os arch xs) o a ≡ latest_in xs o a
  unfolding mark_latest
  latest_elsewhere o a [] differ h = refl
  latest_elsewhere o a (x ∷ xs) differ h =
      let rest = latest_elsewhere o a xs differ h.1 in
      elim (Bool-cases (same_platform os arch x)) [
        | inl own ↦
            let other = two_platforms o a os arch x differ own in ground (arith, rest, other)
        | inr own ↦ ground (arith, rest, h.0)
      ]

  latest_here :
      (xs : List Bundle)
      → All (IsOf id os arch) xs
      → any (λ (b : Bundle). b.id == id) xs ≡ true
      → latest_in (mark_latest id os arch xs) os arch ≡ some id
  unfolding mark_latest
  latest_here [] h e = cc
  latest_here (x ∷ xs) h e = elim (Bool-cases (x.id == id)) [
    | inl same ↦ ground (arith, h.0 same)
    | inr other ↦ ground (arith, latest_here xs h.1 (ground arith))
  ]

-- A row with the id of a row that is found is this row.
pub found_alone :
    (id : ℕ) (xs : List Bundle) (b : Bundle)
    → Pairs AreApart xs
    → find (λ (x : Bundle). x.id == id) xs ≡ some b
    → All (IsOf id b.os b.arch) xs
found_alone id [] b v e = tt
found_alone id (x ∷ xs) b v e = elim (Bool-cases (x.id == id)) [
  | inl t ↦
      let same : x ≡ b = some_inj x b (rw t at e) in
      subst (λ (c : Bundle). All (IsOf id c.os c.arch) (x ∷ xs)) same
        (
          (λ _. ground (arith, str_eq_iff x.os x.os, str_eq_iff x.arch x.arch)),
          All-mono (AreApart x) (IsOf id x.os x.arch) (λ y r i. absurd (r.ids (ground arith))) xs
              v.0,
        )
  | inr t ↦ ((λ i. cc), found_alone id xs b v.1 (rw t at e))
]

-- Where the rows keep the unique indexes, marking a bundle as the latest changes the map from
-- platforms to their latest bundles at the bundle's own platform, to the bundle, and at no
-- other.
pub set_bundle_latest-put :
    (id : ℕ) (k k' : Catalog) (b : Bundle) (o a : String)
    → IsCatalog k
    → get_bundle_by_id k id ≡ some b
    → set_bundle_latest id k ≡ ok k'
    → latest_in k'.bundles o a ≡ put b.os b.arch id (latest_in k.bundles) o a
unfolding set_bundle_latest get_bundle_by_id
set_bundle_latest-put id k k' b o a v row done =
    let same : record k { bundles = mark_latest id b.os b.arch k.bundles } ≡ k' =
      ok_inj _ k' (rw (set_bundle_latest, row) at done) in
    let of = found_alone id k.bundles b v.apart row in
    subst
      (λ (k' : Catalog). latest_in k'.bundles o a ≡ put b.os b.arch id (latest_in k.bundles) o a)
      same
      (elim (Bool-cases (str_eq b.os o && str_eq b.arch a)) [
        | inr differ ↦ rw differ (latest_elsewhere id b.os b.arch o a k.bundles differ of)
        | inl here ↦
            let os_is : b.os ≡ o = ground (arith, str_eq_iff b.os o) in
            let arch_is : b.arch ≡ a = ground (arith, str_eq_iff b.arch a) in
            rw here (
              subst (λ z. latest_in (mark_latest id b.os b.arch k.bundles) z a ≡ some id) os_is
                (subst (λ z. latest_in (mark_latest id b.os b.arch k.bundles) b.os z ≡ some id)
                  arch_is
                  (latest_here id b.os b.arch k.bundles of (
                    find-any_of (λ (x : Bundle). x.id == id) (λ (x : Bundle). x.id == id) k.bundles
                      b row (find-test (λ (x : Bundle). x.id == id) k.bundles b row)))))
      ])
