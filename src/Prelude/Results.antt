-- ===== src/Prelude/Results.antt =====
-- How a Go function ends, where the errors are texts: with a value or an error, and by a panic.
use kubernetes_examples.Prelude.{String, ◌≡◌, ◌⊎◌, refl, inl, inr}

-- A value and a nil error, or the text of an error.
pub data Attempt {ℓ} (A : Type ℓ) : Type ℓ where
  ok : A → Attempt A
  err : String → Attempt A

pub Attempt-cases {ℓ} :
    {A : Type ℓ} (r : Attempt A) → ((a : A) × (r ≡ ok a)) ⊎ ((e : String) × (r ≡ err e))
Attempt-cases (ok a) = inl (a, refl)
Attempt-cases (err e) = inr (e, refl)

-- A function that returns, or panics.
pub data Run {ℓ} (A : Type ℓ) : Type ℓ where
  returned : A → Run A
  panicked : Run A
