-- ===== src/Kube/Along.antt =====
-- Relations between the world before a computation and the world after it, whatever the outcome: rules for
-- `do` blocks.
use kubernetes_examples.Prelude.{refl, ◌≡◌, ◌≡◌, List, Option, none, some}
use kubernetes_examples.Kube.Effect.{
  pure, ◌>>◌, ApiError, Result, ok, err, Outcome, done, fail, panic, Call, M, continue_with, ◌>>=◌,
  check, value_of,
}

module _ {W T : Type 0} (Relates : W → W → Type 0) where
  abbrev pub IsAlong : {A : Type 0} → M W T A → Type 0
  IsAlong m = (w : W) → Relates w (m w).2

module _ {W T : Type 0} (Relates : W → W → Type 0)
    (joined : (u v w : W) → Relates u v → Relates v w → Relates u w) where
  continue_with-IsAlong :
      {A B : Type 0} (o : Outcome A) (cs : List (Call T)) (u v : W) (f : A → M W T B)
      → Relates u v
      → ((a : A) → IsAlong Relates (f a))
      → Relates u (continue_with o cs v f).2
  continue_with-IsAlong (done a) cs u v f h k = joined u v _ h (k a v)
  continue_with-IsAlong (fail e) cs u v f h k = h
  continue_with-IsAlong panic cs u v f h k = h

  pub >>=-IsAlong :
      {A B : Type 0} (m : M W T A) (f : A → M W T B)
      → IsAlong Relates m
      → ((a : A) → IsAlong Relates (f a))
      → IsAlong Relates (m >>= f)
  >>=-IsAlong m f h k w = continue_with-IsAlong (m w).0 (m w).1 w (m w).2 f (h w) k

module _ {W : Type 0} (T : Type 0) (Relates : W → W → Type 0) (same : (w : W) → Relates w w) where
  pub check-IsAlong : (e : Option ApiError) → IsAlong Relates (check {T = T} e)
  check-IsAlong none w = same w
  check-IsAlong (some e) w = same w

  pub value_of-IsAlong : {A : Type 0} (r : Result A) → IsAlong Relates (value_of {T = T} r)
  value_of-IsAlong (ok a) w = same w
  value_of-IsAlong (err e) w = same w

pub check_world :
    {W A : Type 0} (T : Type 0) (e : Option ApiError) (a : A) (w : W)
    → (◌>>◌ (check {T = T} e) (pure a) w).2 ≡ w
check_world T none a w = refl
check_world T (some e) a w = refl
