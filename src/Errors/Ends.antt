-- ===== src/Errors/Ends.antt =====
-- How a fallible step ends: with a value that has one property, or with an error that has another.
use mathlib.Core.Path.{subst}
use polar_wg.Base.{if◌then◌else◌, ◌≡◌, refl, sym, Bool, true, false, Option, none, some}
use polar_wg.Errors.{require, Error, Result, ok, err, ◌>>=◌, or_fail}

pub data Ends {ℓ μ} {A : Type ℓ} (P : A → Type μ) (E : Error → Type 0)
    : Result A → Type (ℓ ⊔ μ) where
  returns : (a : A) → P a → Ends P E (ok a)
  fails : (e : Error) → E e → Ends P E (err e)

module _ {ℓ κ μ ν} {A : Type ℓ} {B : Type κ} {P : A → Type μ} {Q : B → Type ν}
    {E : Error → Type 0} where
  pub Ends-bind :
      {m : Result A} (f : A → Result B)
      → Ends P E m
      → ((a : A) → P a → Ends Q E (f a))
      → Ends Q E (m >>= f)
  Ends-bind f (returns a p) k = k a p
  Ends-bind f (fails e h) k = fails e h

module _ {ℓ μ} {A : Type ℓ} (P : A → Type μ) (E : Error → Type 0) where
  pub Ends-or_fail :
      (o : Option A) (e : Error)
      → (o ≡ none → E e)
      → ((a : A) → o ≡ some a → P a)
      → Ends P E (or_fail o e)
  Ends-or_fail none e miss hit = fails e (miss refl)
  Ends-or_fail (some a) e miss hit = returns a (hit a refl)

  pub Ends-or_fail-some :
      (o : Option A) (e : Error) (a : A) → o ≡ some a → P a → Ends P E (or_fail o e)
  Ends-or_fail-some o e a h p = rw h (returns a p)

  pub Ends-if :
      (b : Bool) (m n : Result A)
      → (b ≡ true → Ends P E m)
      → (b ≡ false → Ends P E n)
      → Ends P E (if b then m else n)
  Ends-if true m n yes_case no_case = yes_case refl
  Ends-if false m n yes_case no_case = no_case refl

  pub Ends-eq : {m n : Result A} → m ≡ n → Ends P E n → Ends P E m
  Ends-eq h e = subst (Ends P E) (sym h) e

  -- What a step that is known to have returned has.
  pub Ends-ok : (m : Result A) (a : A) → m ≡ ok a → Ends P E m → P a
  Ends-ok m b h (returns a p) = subst P (cc) p
  Ends-ok m b h (fails e p) = cc

  pub Ends-err : (m : Result A) (e : Error) → m ≡ err e → Ends P E m → E e
  Ends-err m b h (returns a p) = cc
  Ends-err m b h (fails e p) = subst E (cc) p

pub Ends-guard :
    (E : Error → Type 0) (b : Bool) (e : Error)
    → (b ≡ false → E e)
    → Ends (λ _. b ≡ true) E (require b e)
Ends-guard E true e miss = returns tt refl
Ends-guard E false e miss = fails e (miss refl)

pub Ends-mono {ℓ μ} :
    {A : Type ℓ} {P : A → Type μ} {E F : Error → Type 0} {m : Result A}
    → ((e : Error) → E e → F e)
    → Ends P E m
    → Ends P F m
Ends-mono f (returns a p) = returns a p
Ends-mono f (fails e h) = fails e (f e h)

-- A step ends with the value that it ends with.
pub anything : {A : Type 0} (m : Result A) → Ends (λ a. m ≡ ok a) (λ _. Unit) m
anything (ok a) = returns a refl
anything (err e) = fails e tt

-- A step about whose errors nothing is said.
pub Ends-last {ℓ μ} :
    {A : Type ℓ} (P : A → Type μ) (m : Result A) → ((a : A) → m ≡ ok a → P a) → Ends P (λ _. Unit) m
Ends-last P (ok a) f = returns a (f a refl)
Ends-last P (err e) f = fails e tt

-- A step that ends well has returned what it ends with.
pub Ends-known {ℓ μ} :
    {A : Type ℓ} {P : A → Type μ} {E : Error → Type 0} {m : Result A}
    → Ends P E m
    → Ends (λ a. (m ≡ ok a) × P a) E m
Ends-known (returns a p) = returns a (refl, p)
Ends-known (fails e h) = fails e h

-- A step that has no error returns.
pub Ends-total {ℓ μ} :
    {A : Type ℓ} {P : A → Type μ} {m : Result A} → Ends P (λ _. ⊥) m → (a : A) × (m ≡ ok a) × P a
Ends-total (returns a p) = (a, refl, p)
Ends-total (fails e h) = absurd h
