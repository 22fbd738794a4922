-- ===== src/Prelude/Results.antt =====
-- Results of fallible code, and the chain of `?`.
use mathlib.Core.Path.{◌≡◌, refl, ap}
use mathlib.Core.Logic.{◌⊎◌, inl, inr}

pub data Result {ℓ κ} (E : Type ℓ) (A : Type κ) : Type (ℓ ⊔ κ) where
  ok : A → Result E A
  err : E → Result E A

infixl 5 ◌>>=◌ ◌>>◌
abbrev pub ◌>>=◌ {ℓ κ μ} :
    {E : Type ℓ} {A : Type κ} {B : Type μ} → Result E A → (A → Result E B) → Result E B
ok a >>= f = f a
err e >>= f = err e

abbrev pub ◌>>◌ {ℓ μ} : {E : Type ℓ} {B : Type μ} → Result E (Unit {0}) → Result E B → Result E B
m >> k = m >>= λ _. k

pub Result-cases {ℓ κ} :
    {E : Type ℓ} {A : Type κ} (r : Result E A) → ((a : A) × (r ≡ ok a)) ⊎ ((e : E) × (r ≡ err e))
Result-cases (ok a) = inl (a, refl)
Result-cases (err e) = inr (e, refl)

module _ {ℓ κ} {E : Type ℓ} {A : Type κ} where
  abbrev from_ok : A → Result E A → A
  from_ok a (ok b) = b
  from_ok a (err e) = a

  pub ok-injective : {a b : A} → ◌≡◌ {A = Result E A} (ok a) (ok b) → a ≡ b
  ok-injective {a} {b} e = ap (from_ok a) e

  -- The value that a chain went on with, where it ends well.
  pub ok-bound :
      {B : Type κ} (r : Result E A) {k : A → Result E B} {b : B}
      → (r >>= k) ≡ ok b
      → (first : A) × (k first ≡ ok b) × (r ≡ ok first)
  ok-bound (err x) e = cc
  ok-bound (ok first) e = (first, e, refl)
