-- ===== src/Kube/Effect.antt =====
-- Go functions that talk to the API server: a computation takes the state of the world to an outcome,
-- the calls that it made, in order, and the world that they left.
use kubernetes_examples.Prelude.{
  String, Bool, true, false, ◌≡◌, refl, ◌⊎◌, inl, inr, List, [], ◌++◌, Option, none, some,
  StringMap,
}
use kubernetes_examples.Kube.Objects.{NamespacedName, Pod}

-- An error of a client call, as far as the sources look into it: `errors.IsNotFound`, and its text.
pub data ApiError : Type 0 where
  not_found : String → ApiError
  already_exists : String → ApiError
  failure : String → ApiError

abbrev pub is_not_found : ApiError → Bool
is_not_found (not_found _) = true
is_not_found (already_exists _) = false
is_not_found (failure _) = false

-- `err.Error()`
abbrev pub error_text : ApiError → String
error_text (not_found s) = s
error_text (already_exists s) = s
error_text (failure s) = s

-- A value and a nil error, or an error.
pub data Result {ℓ} (A : Type ℓ) : Type ℓ where
  ok : A → Result A
  err : ApiError → Result A

-- How a Go function ends: it returns, it returns an error, or it panics.
pub data Outcome {ℓ} (A : Type ℓ) : Type ℓ where
  done : A → Outcome A
  fail : ApiError → Outcome A
  panic : Outcome A

-- The calls of a controller for objects of type `T`: client calls and `Recorder.Eventf`.
pub data Call (T : Type 0) : Type 0 where
  get : NamespacedName → Call T
  update : T → Call T
  update_status : T → Call T
  list : String → StringMap → Call T
  create : Pod → Call T
  delete : Pod → Call T
  event : (kind reason message : String) → Call T

abbrev pub M : Type 0 → Type 0 → Type 0 → Type 0
M W T A = W → Outcome A × List (Call T) × W

module _ {W T : Type 0} where
  abbrev pub pure : {A : Type 0} → A → M W T A
  pure a w = (done a, [], w)

  abbrev pub throw : {A : Type 0} → ApiError → M W T A
  throw e w = (fail e, [], w)

  abbrev pub crash : {A : Type 0} → M W T A
  crash w = (panic, [], w)

  abbrev pub continue_with :
      {A B : Type 0} → Outcome A → List (Call T) → W → (A → M W T B) → Outcome B × List (Call T) × W
  continue_with (done a) cs w f = let (o, more, w') = f a w in (o, cs ++ more, w')
  continue_with (fail e) cs w f = (fail e, cs, w)
  continue_with panic cs w f = (panic, cs, w)

  infixl 5 ◌>>=◌ ◌>>◌
  abbrev pub ◌>>=◌ : {A B : Type 0} → M W T A → (A → M W T B) → M W T B
  ◌>>=◌ m f w = let (o, cs, w') = m w in continue_with o cs w' f

  abbrev pub ◌>>◌ : {B : Type 0} → M W T (Unit {0}) → M W T B → M W T B
  m >> k = m >>= λ _. k

  -- `if err := …; err != nil { return …, err }`
  abbrev pub check : Option ApiError → M W T (Unit {0})
  check none = pure tt
  check (some e) = throw e

  -- The value of a call, whose error is returned as it is.
  abbrev pub value_of : {A : Type 0} → Result A → M W T A
  value_of (ok a) = pure a
  value_of (err e) = throw e

pub Result-cases {ℓ} :
    {A : Type ℓ} (r : Result A) → ((a : A) × (r ≡ ok a)) ⊎ ((e : ApiError) × (r ≡ err e))
Result-cases (ok a) = inl (a, refl)
Result-cases (err e) = inr (e, refl)

pub Outcome-cases {ℓ} :
    {A : Type ℓ} (o : Outcome A)
    → ((a : A) × (o ≡ done a)) ⊎ ((e : ApiError) × (o ≡ fail e)) ⊎ (o ≡ panic)
Outcome-cases (done a) = inl (a, refl)
Outcome-cases (fail e) = inr (inl (e, refl))
Outcome-cases panic = inr (inr refl)

-- A last test of an error makes no call.
pub check_calls :
    {W T A : Type 0} (e : Option ApiError) (a : A) (w : W)
    → (◌>>◌ (check {T = T} e) (pure a) w).1 ≡ []
check_calls none a w = refl
check_calls (some e) a w = refl
