-- ===== src/Alloc/Room.antt =====
-- While there is room, a free index is found: a search that finds none has met as many numbers as it
-- has rounds.
use polar_wg.Store.Rows.{Db}
use polar_wg.Alloc.Index.{used_d_indexes, pick_free_d_index, first_free}
use polar_wg.Base.{
  zero, [], Bool-cases, Option-cases, ltb, ◌∷◌, suc, some, none, ◌&&◌, ◌+◌, true, arith, ◌≤◌, elem,
  ◌≡◌, leb, ◌==◌, ◌<◌, select, List, Bool, length, ℕ, refl, inl, inr,
}
use polar_wg.Errors.{ok}

abbrev within : ℕ → ℕ → ℕ → Bool
within v rounds x = leb v x && ltb x (v + rounds)

-- How many numbers of a list a window has.
abbrev count : (ℕ → Bool) → List ℕ → ℕ
count p xs = length (select p xs)

count_all : (p : ℕ → Bool) (xs : List ℕ) → count p xs ≤ length xs
count_all p [] = omega arith
count_all p (x ∷ xs) = ground (arith, count_all p xs)

count_met : (v : ℕ) (xs : List ℕ) → elem v xs ≡ true → 1 ≤ count (λ x. v == x) xs
count_met v [] e = cc
count_met v (x ∷ xs) e = ground (arith, count_met v xs)

count_next :
    (v rounds : ℕ) (xs : List ℕ)
    → count (λ x. v == x) xs + count (within (v + 1) rounds) xs ≤ count (within v (suc rounds)) xs
count_next v rounds [] = omega arith
count_next v rounds (x ∷ xs) = ground (arith, count_next v rounds xs)

exhausted-count :
    (rounds v : ℕ) (used : List ℕ)
    → first_free rounds v used ≡ none
    → rounds ≤ count (within v rounds) used
unfolding first_free
exhausted-count zero v used e = omega arith
exhausted-count (suc rounds) v used e = elim (Bool-cases (elem v used)) [
  | inr t ↦ ground (arith, t)
  | inl t ↦
      let rest : rounds ≤ count (within (v + 1) rounds) used =
        exhausted-count rounds (v + 1) used (ground (arith, t)) in
      omega (arith, rest, count_met v used t, count_next v rounds used)
]

-- A search with more rounds than there are numbers in use finds one that is not.
pub first_free_found :
    (rounds v : ℕ) (used : List ℕ)
    → length used < rounds
    → (k : ℕ) × (first_free rounds v used ≡ some k)
first_free_found rounds v used room = elim (Option-cases (first_free rounds v used)) [
  | inr (k, e) ↦ (k, e)
  | inl e ↦
      absurd (omega (arith, exhausted-count rounds v used e, count_all (within v rounds) used))
]

-- With fewer than 253 live devices at the sites of a hub, the hub has a free index.
pub pick_free_d_index_found :
    (db : Db) (hub_id : ℕ)
    → length (used_d_indexes db hub_id) < 253
    → (k : ℕ) × (pick_free_d_index db hub_id ≡ ok k)
unfolding pick_free_d_index
pick_free_d_index_found db hub_id room =
    let (k, e) = first_free_found 253 2 (used_d_indexes db hub_id) room in (k, rw e refl)
