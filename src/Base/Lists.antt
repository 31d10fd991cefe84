-- ===== src/Base/Lists.antt =====
-- Tables are lists of rows in the order of their ids. SELECT, UPDATE and COUNT over them, and the
-- predicates by which statements speak of them.
use Prim.Native.Nat.{ℕ, suc}
use mathlib.Core.Path.{subst, ◌≡◌, refl, ap}
use mathlib.Core.Logic.{◌≢◌, inl, inr}
use mathlib.Core.Bool.{◌&&◌, Bool, true, false, ◌||◌}
use mathlib.Core.Option.{Option, none, some}
use mathlib.Core.List.{map, List, [], ◌∷◌, ◌++◌}
use native.Mathlib.Omega.{arith}
use polar_wg.Base.Tests.{Bool-cases, leb, ◌==◌, if◌then◌else◌}

module _ {ℓ} {A : Type ℓ} where
  abbrev pub length : List A → ℕ
  length [] = 0
  length (x ∷ xs) = suc (length xs)

  -- SELECT … WHERE p
  abbrev pub select : (A → Bool) → List A → List A
  select p [] = []
  select p (x ∷ xs) = let rest = select p xs in if p x then x ∷ rest else rest

  -- The first row WHERE p
  abbrev pub find : (A → Bool) → List A → Option A
  find p [] = none
  find p (x ∷ xs) = let rest = find p xs in if p x then some x else rest

  -- UPDATE … SET f WHERE p
  abbrev pub update_where : (A → Bool) → (A → A) → List A → List A
  update_where p f [] = []
  update_where p f (x ∷ xs) = (if p x then f x else x) ∷ update_where p f xs

  abbrev pub any : (A → Bool) → List A → Bool
  any p [] = false
  any p (x ∷ xs) = p x || any p xs

  -- INSERT at the place that ORDER BY key gives.
  abbrev pub insert_by : (A → ℕ) → A → List A → List A
  insert_by key a [] = a ∷ []
  insert_by key a (x ∷ xs) =
      let rest = insert_by key a xs in if leb (key a) (key x) then a ∷ x ∷ xs else x ∷ rest

  abbrev pub order_by : (A → ℕ) → List A → List A
  order_by key [] = []
  order_by key (x ∷ xs) = insert_by key x (order_by key xs)

  abbrev pub All {κ} : (A → Type κ) → List A → Type κ
  All P [] = Unit
  All P (x ∷ xs) = P x × All P xs

  -- Any two rows, the earlier one first, are related.
  abbrev pub Pairs {κ} : (A → A → Type κ) → List A → Type κ
  Pairs R [] = Unit
  Pairs R (x ∷ xs) = All (R x) xs × Pairs R xs

abbrev pub elem : ℕ → List ℕ → Bool
elem n [] = false
elem n (x ∷ xs) = n == x || elem n xs

pub some_inj {ℓ} : {A : Type ℓ} (a b : A) → some a ≡ some b → a ≡ b
some_inj a b e = cc

module _ {ℓ κ} {A : Type ℓ} (P : A → Type κ) where
  pub All-append : (xs ys : List A) → All P xs → All P ys → All P (xs ++ ys)
  All-append [] ys hx hy = hy
  All-append (x ∷ xs) ys hx hy = (hx.0, All-append xs ys hx.1 hy)

  pub All-intro : ((a : A) → P a) → (xs : List A) → All P xs
  All-intro f [] = tt
  All-intro f (x ∷ xs) = (f x, All-intro f xs)

  -- The rows that a selection leaves have the property of all rows, and pass the test.
  pub All-select :
      (p : A → Bool) (xs : List A) → All P xs → All (λ a. (p a ≡ true) × P a) (select p xs)
  All-select p [] h = tt
  All-select p (x ∷ xs) h = elim (Bool-cases (p x)) [
    | inl e ↦ rw e ((e, h.0), All-select p xs h.1)
    | inr e ↦ rw e (All-select p xs h.1)
  ]

  pub find-All : (p : A → Bool) (xs : List A) (a : A) → All P xs → find p xs ≡ some a → P a
  find-All p [] a h e = cc
  find-All p (x ∷ xs) a h e = elim (Bool-cases (p x)) [
    | inl t ↦ subst P (some_inj x a (rw t at e)) h.0
    | inr t ↦ find-All p xs a h.1 (rw t at e)
  ]

module _ {ℓ κ μ} {A : Type ℓ} (P : A → Type κ) (Q : A → Type μ) where
  pub All-mono : ((a : A) → P a → Q a) → (xs : List A) → All P xs → All Q xs
  All-mono f [] h = tt
  All-mono f (x ∷ xs) h = (f x h.0, All-mono f xs h.1)

  pub All-zip {ν} :
      (R : A → Type ν)
      → ((a : A) → P a → Q a → R a)
      → (xs : List A) → All P xs
      → All Q xs
      → All R xs
  All-zip R f [] h k = tt
  All-zip R f (x ∷ xs) h k = (f x h.0 k.0, All-zip R f xs h.1 k.1)

  pub All-update_where :
      (p : A → Bool) (f : A → A)
      → ((a : A) → p a ≡ true → P a → Q (f a))
      → ((a : A) → p a ≡ false → P a → Q a)
      → (xs : List A) → All P xs
      → All Q (update_where p f xs)
  All-update_where p f hit miss [] h = tt
  All-update_where p f hit miss (x ∷ xs) h = elim (Bool-cases (p x)) [
    | inl t ↦ rw t (hit x t h.0, All-update_where p f hit miss xs h.1)
    | inr t ↦ rw t (miss x t h.0, All-update_where p f hit miss xs h.1)
  ]

module _ {ℓ} {A : Type ℓ} where
  -- What `find` returns passes the test.
  pub find-test : (p : A → Bool) (xs : List A) (a : A) → find p xs ≡ some a → p a ≡ true
  find-test p [] a e = cc
  find-test p (x ∷ xs) a e = elim (Bool-cases (p x)) [
    | inl t ↦ subst (λ y. p y ≡ true) (some_inj x a (rw t at e)) t
    | inr t ↦ find-test p xs a (rw t at e)
  ]

  pub find-append_none :
      (p : A → Bool) (xs ys : List A) → find p xs ≡ none → find p (xs ++ ys) ≡ find p ys
  find-append_none p [] ys e = refl
  find-append_none p (x ∷ xs) ys e = ground (arith, find-append_none p xs ys)

  pub find-append_some :
      (p : A → Bool) (xs ys : List A) (a : A) → find p xs ≡ some a → find p (xs ++ ys) ≡ some a
  find-append_some p [] ys a e = cc
  find-append_some p (x ∷ xs) ys a e = ground (arith, find-append_some p xs ys a)

  -- No row passes the test that `any` fails, and `find` finds none.
  pub any-All : (p : A → Bool) (xs : List A) → any p xs ≡ false → All (λ a. p a ≡ false) xs
  any-All p [] e = tt
  any-All p (x ∷ xs) e = (ground arith, any-All p xs (ground arith))

  pub All-any : (p : A → Bool) (xs : List A) → All (λ a. p a ≡ false) xs → any p xs ≡ false
  All-any p [] h = refl
  All-any p (x ∷ xs) h = ground (arith, h.0, All-any p xs h.1)

  pub All-find : (p : A → Bool) (xs : List A) → All (λ a. p a ≡ false) xs → find p xs ≡ none
  All-find p [] h = refl
  All-find p (x ∷ xs) h = ground (arith, h.0, All-find p xs h.1)

  -- What `find` returns is among the rows.
  pub find-any_of :
      (p q : A → Bool) (xs : List A) (a : A) → find p xs ≡ some a → q a ≡ true → any q xs ≡ true
  find-any_of p q [] a e h = cc
  find-any_of p q (x ∷ xs) a e h = elim (Bool-cases (p x)) [
    | inl t ↦ let same : x ≡ a = some_inj x a (rw t at e) in rw (same, h)
    | inr t ↦ let later : any q xs ≡ true = find-any_of p q xs a (rw t at e) h in ground arith
  ]

  pub any-append_left : (p : A → Bool) (xs ys : List A) → any p xs ≡ true → any p (xs ++ ys) ≡ true
  any-append_left p [] ys h = cc
  any-append_left p (x ∷ xs) ys h = ground (arith, any-append_left p xs ys)

  pub any-append_last :
      (p : A → Bool) (xs : List A) (a : A) → p a ≡ true → any p (xs ++ a ∷ []) ≡ true
  any-append_last p [] a h = ground arith
  any-append_last p (x ∷ xs) a h = ground (arith, any-append_last p xs a h)

  pub find-any : (p : A → Bool) (xs : List A) → find p xs ≡ none → any p xs ≡ false
  find-any p [] e = refl
  find-any p (x ∷ xs) e = ground (arith, find-any p xs)

  -- An update that keeps the test commutes with `find`.
  pub find-update_where :
      (p q : A → Bool) (f : A → A)
      → ((a : A) → p (f a) ≡ p a)
      → (xs : List A) (a : A) → find p xs ≡ some a
      → find p (update_where q f xs) ≡ some (if q a then f a else a)
  find-update_where p q f keeps [] a e = cc
  find-update_where p q f keeps (x ∷ xs) a e =
      ground (arith, keeps x, find-update_where p q f keeps xs a)

  pub find-update_where-none :
      (p q : A → Bool) (f : A → A)
      → ((a : A) → p (f a) ≡ p a)
      → (xs : List A) → find p xs ≡ none
      → find p (update_where q f xs) ≡ none
  find-update_where-none p q f keeps [] e = refl
  find-update_where-none p q f keeps (x ∷ xs) e =
      ground (arith, keeps x, find-update_where-none p q f keeps xs)

  pub length-update_where :
      (q : A → Bool) (f : A → A) (xs : List A) → length (update_where q f xs) ≡ length xs
  length-update_where q f [] = refl
  length-update_where q f (x ∷ xs) = ap suc (length-update_where q f xs)

-- A number that is not in a list differs from each of its elements, and the other way round.
pub elem-All : (n : ℕ) (xs : List ℕ) → elem n xs ≡ false → All (λ m. n ≢ m) xs
elem-All n [] e = tt
elem-All n (x ∷ xs) e = ((λ h. ground arith), elem-All n xs (ground arith))

pub any-map-select {ℓ κ} :
    {A : Type ℓ} {B : Type κ} (p : B → Bool) (f : A → B) (q : A → Bool) (xs : List A)
    → any p (map f (select q xs)) ≡ any (λ x. q x && p (f x)) xs
any-map-select p f q [] = refl
any-map-select p f q (x ∷ xs) = elim (Bool-cases (q x)) [
  | inl e ↦ rw e (rw (any-map-select p f q xs))
  | inr e ↦ rw e (any-map-select p f q xs)
]

pub select_none {ℓ} :
    {A : Type ℓ} (p : A → Bool) (xs : List A) → All (λ a. p a ≡ false) xs → select p xs ≡ []
select_none p [] h = refl
select_none p (x ∷ xs) h = rw (h.0, select_none p xs h.1)

pub All-map {ℓ κ μ} :
    {A : Type ℓ} {B : Type κ} (Q : B → Type μ) (f : A → B) (xs : List A)
    → All (λ a. Q (f a)) xs
    → All Q (map f xs)
All-map Q f [] h = tt
All-map Q f (x ∷ xs) h = (h.0, All-map Q f xs h.1)

module _ {ℓ κ} {A : Type ℓ} (R : A → A → Type κ) where
  pub Pairs-append :
      (xs : List A) (y : A) → Pairs R xs → All (λ x. R x y) xs → Pairs R (xs ++ y ∷ [])
  Pairs-append [] y h k = (tt, tt)
  Pairs-append (x ∷ xs) y h k =
      (All-append (R x) xs (y ∷ []) h.0 (k.0, tt), Pairs-append xs y h.1 k.1)

  pub Pairs-select : (p : A → Bool) (xs : List A) → Pairs R xs → Pairs R (select p xs)
  Pairs-select p [] h = tt
  Pairs-select p (x ∷ xs) h = elim (Bool-cases (p x)) [
    | inl e ↦ rw e (
      All-mono (λ a. (p a ≡ true) × R x a) (R x) (λ a k. k.1) (select p xs)
          (All-select (R x) p xs h.0),
      Pairs-select p xs h.1,
    )
    | inr e ↦ rw e (Pairs-select p xs h.1)
  ]

  -- An update keeps a relation of all pairs that it keeps on rows with the property.
  pub Pairs-update_where {μ} :
      (P : A → Type μ) (p : A → Bool) (f : A → A)
      → ((a b : A) → P a → P b → R a b → R (if p a then f a else a) (if p b then f b else b))
      → (xs : List A) → All P xs
      → Pairs R xs
      → Pairs R (update_where p f xs)
  Pairs-update_where P p f keeps [] h k = tt
  Pairs-update_where P p f keeps (x ∷ xs) h k =
      (related xs h.1 k.0, Pairs-update_where P p f keeps xs h.1 k.1)
    where
      related :
          (ys : List A)
          → All P ys
          → All (R x) ys
          → All (R (if p x then f x else x)) (update_where p f ys)
      related [] i j = tt
      related (y ∷ ys) i j = (keeps x y h.0 i.0 j.0, related ys i.1 j.1)
