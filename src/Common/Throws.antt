-- ===== src/Common/Throws.antt =====
-- Code that may throw: the value it returns, or what it throws.
use mathlib.Core.Path.{◌≡◌, refl}

pub data Result {ℓ} (Thrown : Type 0) (Value : Type ℓ) : Type ℓ where
  ok : Value → Result Thrown Value
  err : Thrown → Result Thrown Value

-- What comes after code that may throw is run only when it returns.
infixl 5 ◌>>=◌
abbrev pub ◌>>=◌ {ℓ κ} :
    {X : Type 0} {A : Type ℓ} {B : Type κ} (first : Result X A) (later : A → Result X B)
    → Result X B
first >>= later = elim first [ ok value ↦ later value | err thrown ↦ err thrown ]

-- Chains may be nested either way.
pub >>=-assoc {ℓ κ μ} :
    {E : Type 0} {A : Type ℓ} {B : Type κ} {C : Type μ} (m : Result E A) (f : A → Result E B)
    (g : B → Result E C)
    → (m >>= λ a. f a >>= g) ≡ ((m >>= f) >>= g)
>>=-assoc (ok a) f g = refl
>>=-assoc (err e) f g = refl
