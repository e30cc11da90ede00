-- ===== src/Prelude/Outcome.antt =====
-- How a call of the program ends: with a value, in a failed `assert`, or not within the fuel.
use mathlib.Core.Path.{◌≡◌, refl}

pub data Run {ℓ} (A : Type ℓ) : Type ℓ where
  ok : A → Run A
  abort : Run A
  no_fuel : Run A

-- A call whose value goes to the next one; neither of the other ends goes on.
infixl 5 ◌>>=◌
abbrev pub ◌>>=◌ {ℓ κ} : {A : Type ℓ} {B : Type κ} → Run A → (A → Run B) → Run B
first >>= next = elim first [ ok value ↦ next value | abort ↦ abort | no_fuel ↦ no_fuel ]

-- The call ends normally, in a value of which `P` holds.
abbrev pub Returns {ℓ κ} : {A : Type ℓ} → Run A → (A → Type κ) → Type (ℓ ⊔ κ)
Returns {A} call P = (value : A) × (call ≡ ok value) × P value

pub ok_injective {ℓ} : {A : Type ℓ} {a b : A} → ok a ≡ ok b → a ≡ b
ok_injective e = cc e

-- A call that ends normally has gone through its first part.
pub bind-ok {ℓ κ} :
    {A : Type ℓ} {B : Type κ} (x : Run A) (f : A → Run B) (b : B)
    → x >>= f ≡ ok b
    → (a : A) × (x ≡ ok a) × (f a ≡ ok b)
bind-ok (ok a) f b e = (a, refl, e)
bind-ok abort f b e = cc e
bind-ok no_fuel f b e = cc e
