-- ===== src/Alloc/Free.antt =====
-- What the search for a free index finds, and when it finds none.
use polar_wg.Base.{
  ℕ, zero, suc, ◌+◌, ◌≤◌, ◌<◌, ◌≡◌, refl, Bool, true, false, ◌&&◌, Option, none, some, List, [],
  ◌∷◌, arith, ◌==◌, elem, any, map, select, inl, inr, Bool-cases,
}
use polar_wg.Errors.{Error, Result, ok, err, or_fail, site_exhausted, site_slots_exhausted}
use polar_wg.Store.Rows.{Site, Device, Db, is_live}
use polar_wg.Alloc.Index.{
  first_free, used_s_indexes, used_d_indexes, pick_free_s_index_in_hub, pick_free_d_index, in_hub,
}

-- The least number from `lo` on that is not taken, or none below `hi`.
abbrev pub IsLeast : (ℕ → Bool) → ℕ → ℕ → Option ℕ → Type 0
IsLeast taken lo hi none = (m : ℕ) → lo ≤ m → m < hi → taken m ≡ true
IsLeast taken lo hi (some k) =
    (lo ≤ k) × (k < hi) × (taken k ≡ false) × ((m : ℕ) → lo ≤ m → m < k → taken m ≡ true)

IsLeast-step :
    (taken : ℕ → Bool) (v rounds : ℕ) (r : Option ℕ)
    → taken v ≡ true
    → IsLeast taken (v + 1) (v + 1 + rounds) r
    → IsLeast taken v (v + suc rounds) r
IsLeast-step taken v rounds none t h = λ m lo hi. ground (arith, h m)
IsLeast-step taken v rounds (some k) t h =
    (omega (arith, h.0), omega (arith, h.1), h.2, λ m lo hi. ground (arith, h.3 m))

first_free-IsLeast :
    (rounds v : ℕ) (used : List ℕ)
    → IsLeast (λ m. elem m used) v (v + rounds) (first_free rounds v used)
unfolding first_free
first_free-IsLeast zero v used = λ m lo hi. absurd (omega arith)
first_free-IsLeast (suc rounds) v used = elim (Bool-cases (elem v used)) [
  | inl t ↦
      rw t (IsLeast-step (λ m. elem m used) v rounds _ t (first_free-IsLeast rounds (v + 1) used))
  | inr t ↦ rw t (omega arith, omega arith, t, λ m lo hi. absurd (omega arith))
]

module _ {ℓ} {A : Type ℓ} (p : A → Bool) (f : A → ℕ) where
  elem-map-select :
      (m : ℕ) (xs : List A) → elem m (map f (select p xs)) ≡ any (λ a. p a && m == f a) xs
  elem-map-select m [] = refl
  elem-map-select m (x ∷ xs) = ground (arith, elem-map-select m xs)

-- A live device of the hub has the index.
abbrev pub d_index_taken : Db → ℕ → ℕ → Bool
d_index_taken db hub_id m =
    any (λ (d : Device). (in_hub db hub_id d && is_live d) && m == d.d_index) db.devices

-- A site of the hub has the index.
abbrev pub s_index_taken : Db → ℕ → ℕ → Bool
s_index_taken db hub_id m = any (λ (s : Site). s.hub_id == hub_id && m == s.s_index) db.sites

-- The result of a search from `lo` to `hi`, the error included.
abbrev pub Searched : (ℕ → Bool) → ℕ → ℕ → Error → Result ℕ → Type 0
Searched taken lo hi exhausted (ok k) = IsLeast taken lo (suc hi) (some k)
Searched taken lo hi exhausted (err e) = (e ≡ exhausted) × IsLeast taken lo (suc hi) none

Searched-intro :
    (taken : ℕ → Bool) (used : List ℕ) (lo hi : ℕ) (e : Error) (r : Option ℕ)
    → ((m : ℕ) → elem m used ≡ taken m)
    → IsLeast (λ m. elem m used) lo (suc hi) r
    → Searched taken lo hi e (or_fail r e)
Searched-intro taken used lo hi e none same h = (refl, λ m l u. ground (arith, h m, same m))
Searched-intro taken used lo hi e (some k) same h =
    (h.0, h.1, ground (arith, h.2, same k), λ m l u. ground (arith, h.3 m, same m))

-- The device index that is picked is the least of 2 to 254 that no live device of the hub has,
-- at any of its sites; the search fails, with `site_exhausted`, only when all of them are taken.
pub pick_free_d_index_lem :
    (db : Db) (hub_id : ℕ)
    → Searched (d_index_taken db hub_id) 2 254 site_exhausted (pick_free_d_index db hub_id)
unfolding pick_free_d_index used_d_indexes
pick_free_d_index_lem db hub_id =
    Searched-intro (d_index_taken db hub_id) (used_d_indexes db hub_id) 2 254 site_exhausted
      (first_free 253 2 (used_d_indexes db hub_id))
      (λ m. elem-map-select (λ d. in_hub db hub_id d && is_live d) (λ d. d.d_index) m db.devices)
      (first_free-IsLeast 253 2 (used_d_indexes db hub_id))

-- The site index is the least of 1 to 254 that no site of the hub has; the search fails exactly when
-- all of them are taken.
pub pick_free_s_index_lem :
    (db : Db) (hub_id : ℕ)
    → Searched
        (s_index_taken db hub_id)
        1
        254
        site_slots_exhausted
        (pick_free_s_index_in_hub db hub_id)
unfolding pick_free_s_index_in_hub used_s_indexes
pick_free_s_index_lem db hub_id =
    Searched-intro (s_index_taken db hub_id) (used_s_indexes db hub_id) 1 254 site_slots_exhausted
      (first_free 254 1 (used_s_indexes db hub_id))
      (λ m. elem-map-select (λ s. s.hub_id == hub_id) (λ s. s.s_index) m db.sites)
      (first_free-IsLeast 254 1 (used_s_indexes db hub_id))
