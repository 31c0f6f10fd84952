-- ===== src/Prelude/Attempt.antt =====
-- What a method returns or raises; an exception is its message.
use Prim.Native.String.{String}
use mathlib.Core.Path.{◌≡◌, refl}
use mathlib.Core.Logic.{◌⊎◌, inl, inr}

pub data Attempt {ℓ} (A : Type ℓ) : Type ℓ where
  returned : A → Attempt A
  raised : String → Attempt A

pub Attempt-cases {ℓ} :
    {A : Type ℓ} (x : Attempt A) → ((a : A) × (x ≡ returned a)) ⊎ ((e : String) × (x ≡ raised e))
Attempt-cases (returned a) = inl (a, refl)
Attempt-cases (raised e) = inr (e, refl)
