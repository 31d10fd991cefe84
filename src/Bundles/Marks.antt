-- ===== src/Bundles/Marks.antt =====
-- Moving the mark of the latest bundle keeps the unique indexes.
use polar_wg.Bundles.Unique.{AreApart, IsCatalog}
use polar_wg.Bundles.{
  no_rows, or_fail, ok, same_platform, mark, unmark, Catalog, Bundle, mark_latest,
  set_bundle_latest, get_bundle_by_id,
}
use polar_wg.Base.{
  ◌<◌, All-intro, All-update_where, All-zip, Pairs-update_where, ◌∙◌, str_eq_iff, arith, [],
  Bool-cases, update_where, some, true, false, find, ◌&&◌, ◌≡◌, ◌∷◌, ◌==◌, All, Bool, String, List,
  ℕ, if◌then◌else◌, refl, inl, inr,
}
use polar_wg.Errors.{or_fail-eq-ok, >>=-eq-ok, ok_inj}
use mathlib.Core.Path.{subst, sym}
use polar_wg.Bundles.Latest.{IsOf, found_alone}

-- A row after the platform's mark is gone.
unmarked :
    (os arch : String) (xs : List Bundle)
    → All
        (λ x. (x.is_latest && same_platform os arch x) ≡ false)
        (update_where (λ b. b.is_latest && same_platform os arch b) unmark xs)
unmarked os arch [] = tt
unmarked os arch (x ∷ xs) = (ground arith, unmarked os arch xs)

same_place :
    (os arch : String) (a b : Bundle)
    → same_platform os arch a ≡ true
    → same_platform b.os b.arch a ≡ true
    → same_platform os arch b ≡ true
same_place os arch a b own other =
    let os_is : a.os ≡ os = ground (arith, str_eq_iff a.os os) in
    let arch_is : a.arch ≡ arch = ground (arith, str_eq_iff a.arch arch) in
    let b_os : a.os ≡ b.os = ground (arith, str_eq_iff a.os b.os) in
    let b_arch : a.arch ≡ b.arch = ground (arith, str_eq_iff a.arch b.arch) in
    ground
      (arith, str_eq_iff b.os os, str_eq_iff b.arch arch, sym b_os ∙ os_is, sym b_arch ∙ arch_is)

moved_place :
    (os arch : String) (a b : Bundle)
    → same_platform os arch b ≡ true
    → same_platform b.os b.arch a ≡ true
    → same_platform os arch a ≡ true
moved_place os arch a b own other =
    let os_is : b.os ≡ os = ground (arith, str_eq_iff b.os os) in
    let arch_is : b.arch ≡ arch = ground (arith, str_eq_iff b.arch arch) in
    let b_os : a.os ≡ b.os = ground (arith, str_eq_iff a.os b.os) in
    let b_arch : a.arch ≡ b.arch = ground (arith, str_eq_iff a.arch b.arch) in
    ground (arith, str_eq_iff a.os os, str_eq_iff a.arch arch, b_os ∙ os_is, b_arch ∙ arch_is)

remarked-AreApart :
    (id : ℕ) (os arch : String) (a b : Bundle)
    → ((a.is_latest && same_platform os arch a) ≡ false) × IsOf id os arch a
    → ((b.is_latest && same_platform os arch b) ≡ false) × IsOf id os arch b
    → AreApart a b
    → AreApart (if a.id == id then mark a else a) (if b.id == id then mark b else b)
remarked-AreApart id os arch a b p q r = elim (Bool-cases (a.id == id)) [
  | inl e ↦ elim (Bool-cases (b.id == id)) [
    | inl f ↦ absurd (r.ids (ground arith))
    | inr f ↦
        rw (e, f)
          record {
            ids = r.ids;
            shas = r.shas;
            versions = r.versions;
            latest = elim (Bool-cases (same_platform b.os b.arch a)) [
              | inl here ↦ ground (arith, q.0, same_place os arch a b (p.1 e) here)
              | inr away ↦ ground (arith, away)
            ];
          }
  ]
  | inr e ↦ elim (Bool-cases (b.id == id)) [
    | inl f ↦
        rw (e, f)
          record {
            ids = r.ids;
            shas = r.shas;
            versions = r.versions;
            latest = elim (Bool-cases (same_platform b.os b.arch a)) [
              | inl here ↦ ground (arith, p.0, moved_place os arch a b (q.1 f) here)
              | inr away ↦ ground (arith, away)
            ];
          }
    | inr f ↦ rw (e, f) r
  ]
]

-- The catalog with its marks moved to one bundle.
abbrev marked_at : ℕ → Bundle → Catalog → Catalog
marked_at id b k = record k { bundles = mark_latest id b.os b.arch k.bundles }

unmark-AreApart :
    (p q : Bool) (a b : Bundle)
    → AreApart a b
    → AreApart (if p then unmark a else a) (if q then unmark b else b)
unmark-AreApart true true a b r = record {
  ids = r.ids;
  shas = r.shas;
  versions = r.versions;
  latest = refl;
}
unmark-AreApart true false a b r = record {
  ids = r.ids;
  shas = r.shas;
  versions = r.versions;
  latest = ground arith;
}
unmark-AreApart false true a b r = record {
  ids = r.ids;
  shas = r.shas;
  versions = r.versions;
  latest = refl;
}
unmark-AreApart false false a b r = r

marked-IsCatalog :
    (id : ℕ) (b : Bundle) (k : Catalog)
    → IsCatalog k
    → find (λ (x : Bundle). x.id == id) k.bundles ≡ some b
    → IsCatalog (marked_at id b k)
unfolding mark_latest
marked-IsCatalog id b k v row =
    let stale : Bundle → Bool = λ x. x.is_latest && same_platform b.os b.arch x in
    let of = found_alone id k.bundles b v.apart row in
    record {
      apart =
          Pairs-update_where AreApart
            (λ x. ((x.is_latest && same_platform b.os b.arch x) ≡ false) × IsOf id b.os b.arch x)
            (λ (x : Bundle). x.id == id) mark (remarked-AreApart id b.os b.arch)
            (update_where stale unmark k.bundles)
            (All-zip _ _
              (λ x. ((x.is_latest && same_platform b.os b.arch x) ≡ false) × IsOf id b.os b.arch x)
              (λ x p q. (p, q)) (update_where stale unmark k.bundles)
              (unmarked b.os b.arch k.bundles)
              (All-update_where (IsOf id b.os b.arch) (IsOf id b.os b.arch) stale unmark
                (λ x e h. h) (λ x e h. h) k.bundles of))
            (Pairs-update_where AreApart (λ (x : Bundle). Unit {0}) stale unmark
              (λ a c _ _ r. unmark-AreApart (stale a) (stale c) a c r) k.bundles
              (All-intro (λ (x : Bundle). Unit {0}) (λ x. tt) k.bundles) v.apart);
      fresh =
          All-update_where (λ (x : Bundle). x.id < k.next_bundle)
            (λ (x : Bundle). x.id < k.next_bundle) (λ (x : Bundle). x.id == id) mark (λ x e h. h)
            (λ x e h. h) (update_where stale unmark k.bundles)
            (All-update_where (λ (x : Bundle). x.id < k.next_bundle)
              (λ (x : Bundle). x.id < k.next_bundle) stale unmark (λ x e h. h) (λ x e h. h)
              k.bundles v.fresh);
    }

pub set_bundle_latest-IsCatalog :
    (id : ℕ) (k k' : Catalog) → IsCatalog k → set_bundle_latest id k ≡ ok k' → IsCatalog k'
unfolding set_bundle_latest get_bundle_by_id
set_bundle_latest-IsCatalog id k k' v done =
    let (b, row, rest) =
      >>=-eq-ok (or_fail (get_bundle_by_id k id) no_rows) (λ (b : Bundle). ok (marked_at id b k)) k'
        done in
    subst IsCatalog (ok_inj (marked_at id b k) k' rest) (
      marked-IsCatalog id b k v
        (or_fail-eq-ok (find (λ (x : Bundle). x.id == id) k.bundles) no_rows b row))
