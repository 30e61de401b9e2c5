-- ===== src/Common/Options.antt =====
-- The chain on options: `?` on an `Option`, and steps that may panic.
use mathlib.Core.Path.{◌≡◌, refl}
use mathlib.Core.Option.{Option, none, some}

infixl 5 ◌>>=◌
abbrev pub ◌>>=◌ {ℓ κ} : {A : Type ℓ} {B : Type κ} → Option A → (A → Option B) → Option B
none >>= f = none
some a >>= f = f a

module _ {ℓ κ} {A : Type ℓ} {B : Type κ} (next : A → Option B) where
  -- A chain that gives a value passed through a value of its first step.
  pub >>=-some :
      (o : Option A) {b : B} → o >>= next ≡ some b → (a : A) × (next a ≡ some b) × (o ≡ some a)
  >>=-some none h = cc
  >>=-some (some a) h = (a, h, refl)
