-- ===== src/Status/Cache.antt =====
-- The cache of samples against its description: after a round of polls, each key has the last sample of
-- the round that names it.
use polar_wg.Status.{
  no_entries, with_age, stamped, Entries, Sample, replace, upsert_all, lookup, upsert,
}
use polar_wg.Base.{
  str_eq, ◌&&◌, [], Bool-cases, ◌∙◌, false, Option-cases, not, ◌≡◌, ◌∷◌, none, some, is_empty,
  Option, List, String, ℕ, if◌then◌else◌, refl, inl, inr,
}
use mathlib.Core.Path.{ap}

module _ {ℓ} {D : Type ℓ} where
  -- The last sample of a list that has the key.
  abbrev pub last_of : String → List (Sample D) → Option (Sample D)
  last_of key [] = none
  last_of key (s ∷ samples) = elim (last_of key samples) [
    | some t ↦ some t
    | none ↦
        if not (is_empty s.iface_public_key) && str_eq s.iface_public_key key then some s else none
  ]

  abbrev pub or_stamped : ℕ → Option (Sample D) → Option (Sample D) → Option (Sample D)
  or_stamped now (some s) old = some (stamped now s)
  or_stamped now none old = old

  upsert-one :
      (now : ℕ) (s : Sample D) (samples : List (Sample D)) (entries : Entries D) (key : String)
      → or_stamped now (last_of key samples) (upsert now s entries key)
        ≡ or_stamped now (last_of key (s ∷ samples)) (entries key)
  unfolding upsert
  upsert-one now s samples entries key = elim (Option-cases (last_of key samples)) [
    | inr (t, e) ↦ rw e refl
    | inl e ↦ elim (Bool-cases (is_empty s.iface_public_key)) [
      | inl f ↦ rw (e, f) refl
      | inr f ↦ elim (Bool-cases (str_eq s.iface_public_key key)) [
        | inl g ↦ rw (e, f, g) refl
        | inr g ↦ rw (e, f, g) refl
      ]
    ]
  ]

  upsert_all-last_of :
      (now : ℕ) (samples : List (Sample D)) (entries : Entries D) (key : String)
      → upsert_all now samples entries key ≡ or_stamped now (last_of key samples) (entries key)
  unfolding upsert_all
  upsert_all-last_of now [] entries key = refl
  upsert_all-last_of now (s ∷ samples) entries key =
      upsert_all-last_of now samples (upsert now s entries) key
      ∙ upsert-one now s samples entries key

  -- After the samples of a poll have replaced the cache, a lookup under a key finds the last of
  -- them that has this key, with its time or the time of the replacement, and none where no
  -- sample has the key, whatever the cache held before.
  pub replace-lookup :
      (ttl now later : ℕ) (samples : List (Sample D)) (old : Entries D) (key : String)
      → is_empty key ≡ false
      → lookup ttl later key (replace now samples old)
        ≡ with_age ttl later (or_stamped now (last_of key samples) none)
  unfolding lookup replace
  replace-lookup ttl now later samples old key named =
      rw named (ap (with_age ttl later) (upsert_all-last_of now samples no_entries key))
