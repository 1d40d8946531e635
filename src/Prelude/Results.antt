-- ===== src/Prelude/Results.antt =====
-- Fallible code: a value or an error, chained by `do` as `?` chains it.
use mathlib.Core.Path.{◌≡◌, refl, subst}
use mathlib.Core.Logic.{◌⊎◌, inl, inr}

pub data Result {ℓ κ} (A : Type ℓ) (E : Type κ) : Type (ℓ ⊔ κ) where
  ok : A → Result A E
  err : E → Result A E

module _ {ℓ κ} {E : Type κ} where
  infixl 5 ◌>>=◌
  abbrev pub ◌>>=◌ {μ} : {A : Type ℓ} {B : Type μ} → Result A E → (A → Result B E) → Result B E
  ok a >>= f = f a
  err e >>= f = err e

pub Result-cases {ℓ ℓ'} :
    {A : Type ℓ} {E : Type ℓ'} (r : Result A E) → ((a : A) × (r ≡ ok a)) ⊎ ((e : E) × (r ≡ err e))
Result-cases (ok a) = inl (a, refl)
Result-cases (err e) = inr (e, refl)

-- What holds of the value, if there is one.
abbrev pub Ensures {ℓ κ μ} : {A : Type ℓ} {E : Type κ} → (A → Type μ) → Result A E → Type μ
Ensures P (ok a) = P a
Ensures P (err e) = Unit

pub >>=-Ensures {ℓ κ μ} :
    {A B : Type ℓ} {E : Type κ} (Q : A → Type μ) (P : B → Type μ) (m : Result A E)
    (f : A → Result B E)
    → Ensures Q m
    → ((a : A) → Q a → Ensures P (f a))
    → Ensures P (m >>= f)
>>=-Ensures Q P (ok a) f q step = step a q
>>=-Ensures Q P (err e) f q step = tt

pub Ensures-ok {ℓ κ μ} :
    {A : Type ℓ} {E : Type κ} (P : A → Type μ) (m : Result A E) (a : A)
    → Ensures P m
    → m ≡ ok a
    → P a
Ensures-ok {E} P m a holds h = subst (λ r. Ensures {E = E} P r) h holds
