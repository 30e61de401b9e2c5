-- ===== src/Common/Results.antt =====
-- Results of fallible code, the conditional chain on them, and their inversion.
use mathlib.Core.Path.{◌≡◌, refl}
use mathlib.Core.Logic.{◌⊎◌, inl, inr}
use mathlib.Core.Option.{Option, none, some}

pub data Result {ℓ κ} (A : Type ℓ) (E : Type κ) : Type (ℓ ⊔ κ) where
  ok : A → Result A E
  err : E → Result A E

infixl 5 ◌>>=◌
abbrev pub ◌>>=◌ {ℓ κ μ} :
    {A : Type ℓ} {B : Type κ} {E : Type μ} → Result A E → (A → Result B E) → Result B E
ok a >>= f = f a
err e >>= f = err e

module _ {ℓ κ μ} {A : Type ℓ} {B : Type κ} {E : Type μ} (next : A → Result B E) where
  -- A chain that succeeds passed through a value of its first step.
  pub >>=-ok : (r : Result A E) {b : B} → r >>= next ≡ ok b → (a : A) × (next a ≡ ok b) × (r ≡ ok a)
  >>=-ok (err e) h = cc
  >>=-ok (ok a) h = (a, h, refl)

-- `Option::ok_or`.
abbrev pub ok_or {ℓ κ} : {A : Type ℓ} {E : Type κ} → Option A → E → Result A E
ok_or none e = err e
ok_or (some a) e = ok a

pub Result-cases {ℓ κ} :
    {A : Type ℓ} {E : Type κ} (r : Result A E) → ((a : A) × (r ≡ ok a)) ⊎ ((e : E) × (r ≡ err e))
Result-cases (ok a) = inl (a, refl)
Result-cases (err e) = inr (e, refl)
