-- ===== src/Webhook/Calculate/Laws.antt =====
-- Admission and reconciliation agree on divisors, and what a run asks of the API server.
use mathlib.Core.Path.{sym}
use kubernetes_examples.Prelude.{
  Bool-cases, str_eq_of_ne, inl, inr, ◌%◌, ◌∙◌, ℕ, ◌+◌, ◌*◌, ◌<◌, String, ◌≡◌, ◌≢◌, ◌⊎◌, ◌↔◌, refl,
  [], ◌∷◌, none, arith, str_eq, str_eq_iff,
}
use kubernetes_examples.Prelude.Int.{eqb_ℤ, bits, mul_int, ℤ, pos, negsuc, to_int64, eqb_ℤ_iff}
use kubernetes_examples.Kube.Objects.{NamespacedName}
use kubernetes_examples.Kube.Effect.{Call, ApiError, done, fail, ok, err, failure}
use kubernetes_examples.Kube.Client.{no_requeue, Client}
use kubernetes_examples.Kube.Trace.{status_updates, updates}
use kubernetes_examples.Webhook.Calculate.Types.{
  CalculateSpec, Calculate, action_add, action_sub, action_mul, action_div, add_int, sub_int,
  div_int, negated,
}
use kubernetes_examples.Webhook.Calculate.Admission.{validate, validate_create, validate_update}
use kubernetes_examples.Webhook.Calculate.Controller.{
  calculate, reconcile_found, reconcile_got, reconcile,
}

-- One of the four actions.
unfoldable pub IsAction : String → Type 0
IsAction a = (a ≡ action_add) ⊎ (a ≡ action_sub) ⊎ (a ≡ action_mul) ⊎ (a ≡ action_div)

-- No result: the action is unknown, or a division by 0.
unfoldable pub HasNone : CalculateSpec → Type 0
unfolding IsAction
HasNone s = (¬ IsAction s.action) ⊎ ((s.action ≡ action_div) × (s.second ≡ pos 0))

-- A value of Go's int.
unfoldable pub IsInt : ℤ → Type 0
IsInt (pos n) = n < 9223372036854775808
IsInt (negsuc n) = n < 9223372036854775808

to_int64-IsInt : (n : ℕ) → IsInt (to_int64 n)
unfolding IsInt to_int64
to_int64-IsInt n = ground arith

bits-to_int64 : (n : ℕ) → bits (to_int64 n) ≡ n % 18446744073709551616
unfolding bits to_int64
bits-to_int64 n = ground arith

bits-lt : (z : ℤ) → bits z < 18446744073709551616
unfolding bits
bits-lt (pos n) = omega arith
bits-lt (negsuc n) = omega arith

-- What the result of a calculation is: an int, by the action. Sums, differences and products are those of
-- the integers up to multiples of 2^64, and quotients are those of Go, by a divisor other than 0.
unfoldable pub IsResult : CalculateSpec → ℤ → Type 0
unfolding IsInt
IsResult s z =
    IsInt z
    × (((s.action ≡ action_add) × (bits z ≡ (bits s.first + bits s.second) % 18446744073709551616))
        ⊎ ((s.action ≡ action_sub)
            × ((bits z + bits s.second) % 18446744073709551616 ≡ bits s.first))
        ⊎ ((s.action ≡ action_mul) × (bits z ≡ bits s.first * bits s.second % 18446744073709551616))
        ⊎ ((s.action ≡ action_div) × (s.second ≢ pos 0) × (z ≡ div_int s.first s.second)))

by_action :
    (s : CalculateSpec)
    → ((s.action ≡ action_add) → calculate s ≡ ok (add_int s.first s.second))
      × ((s.action ≡ action_sub) → calculate s ≡ ok (sub_int s.first s.second))
      × ((s.action ≡ action_mul) → calculate s ≡ ok (mul_int s.first s.second))
unfolding calculate str_eq
by_action s = (λ e. rw e refl, λ e. rw e refl, λ e. rw e refl)

by_division :
    (s : CalculateSpec)
    → s.action ≡ action_div
    → ((s.second ≡ pos 0)
        → calculate s ≡ err (failure "the divisor cannot be zero whtn action is division"))
      × ((s.second ≢ pos 0) → calculate s ≡ ok (div_int s.first s.second))
unfolding calculate str_eq
by_division s e =
    (λ none'. rw (e, none') refl, λ other. rw e (ground (arith, eqb_ℤ_iff s.second (pos 0))))

accepted :
    (c : Calculate) → (validate c ≡ []) ↔ ((c.spec.action ≡ action_div) → c.spec.second ≢ pos 0)
unfolding validate
accepted c = ground (arith, str_eq_iff c.spec.action action_div, eqb_ℤ_iff c.spec.second (pos 0))

no_result : (s : CalculateSpec) → HasNone s → (e : ApiError) × (calculate s ≡ err e)
unfolding calculate HasNone IsAction
no_result s (inl unknown) = (
  failure "unknown action type",
  rw
      (
        str_eq_of_ne _ _ (λ e. unknown (inl e)),
        str_eq_of_ne _ _ (λ e. unknown (inr (inl e))),
        str_eq_of_ne _ _ (λ e. unknown (inr (inr (inl e)))),
        str_eq_of_ne _ _ (λ e. unknown (inr (inr (inr e)))),
      )
      refl,
)
no_result s (inr (div, none')) =
    (failure "the divisor cannot be zero whtn action is division", (by_division s div).0 none')

a_result :
    (s : CalculateSpec)
    → IsAction s.action
    → ((s.action ≡ action_div) → s.second ≢ pos 0)
    → (z : ℤ) × (calculate s ≡ ok z)
unfolding IsAction
a_result s (inl e) free = (_, (by_action s).0 e)
a_result s (inr (inl e)) free = (_, (by_action s).1 e)
a_result s (inr (inr (inl e))) free = (_, (by_action s).2 e)
a_result s (inr (inr (inr e))) free = (_, (by_division s e).1 (free e))

div_int-IsInt : (a b : ℤ) → IsInt (div_int a b)
unfolding div_int negated
div_int-IsInt (pos a) (pos b) = to_int64-IsInt _
div_int-IsInt (pos a) (negsuc b) = to_int64-IsInt _
div_int-IsInt (negsuc a) (pos b) = to_int64-IsInt _
div_int-IsInt (negsuc a) (negsuc b) = to_int64-IsInt _

zero-cases : (z : ℤ) → (z ≡ pos 0) ⊎ (z ≢ pos 0)
zero-cases z = ground (arith, eqb_ℤ_iff z (pos 0), Bool-cases (eqb_ℤ z (pos 0)))

text-cases : (s t : String) → (s ≡ t) ⊎ (s ≢ t)
text-cases s t = ground (arith, str_eq_iff s t, Bool-cases (str_eq s t))

undone : (a b : ℤ) → (bits (sub_int a b) + bits b) % 18446744073709551616 ≡ bits a
unfolding sub_int
undone a b =
    let low = bits-lt a in let below = bits-lt b in rw bits-to_int64 (omega (arith, below, low))

IsResult-cases : (s : CalculateSpec) → HasNone s ⊎ ((z : ℤ) × IsResult s z × (calculate s ≡ ok z))
unfolding HasNone IsAction IsResult add_int sub_int mul_int
IsResult-cases s = elim (text-cases s.action action_div) [
  | inl div ↦ elim (zero-cases s.second) [
    | inl e ↦ inl (inr (div, e))
    | inr h ↦ inr (
      _,
      (div_int-IsInt s.first s.second, inr (inr (inr (div, h, refl)))),
      (by_division s div).1 h,
    )
  ]
  | inr no_div ↦ elim (text-cases s.action action_add) [
    | inl e ↦ inr (_, (to_int64-IsInt _, inl (e, bits-to_int64 _)), (by_action s).0 e)
    | inr no_add ↦ elim (text-cases s.action action_sub) [
      | inl e ↦
          inr (_, (to_int64-IsInt _, inr (inl (e, undone s.first s.second))), (by_action s).1 e)
      | inr no_sub ↦ elim (text-cases s.action action_mul) [
        | inl e ↦
            inr (_, (to_int64-IsInt _, inr (inr (inl (e, bits-to_int64 _)))), (by_action s).2 e)
        | inr no_mul ↦ inl (inl (λ h. ground (arith, h, no_div, no_add, no_sub, no_mul)))
      ]
    ]
  ]
]

ok_ne_err : (z : ℤ) (e : ApiError) → ok z ≢ err e
ok_ne_err z e same = cc

-- For one of the four actions, admission lets an object be created exactly when the controller
-- finds a result for it; and an update of an object is let through exactly when its creation is.
pub validate-calculate :
    (c old : Calculate)
    → IsAction c.spec.action
    → ((validate_create c ≡ []) ↔ ((z : ℤ) × (calculate c.spec ≡ ok z)))
      × ((validate_update c old ≡ []) ↔ (validate_create c ≡ []))
unfolding validate_create validate_update
validate-calculate c old known = (
  (
    (λ free. a_result c.spec known ((accepted c).0 free)),
    λ (z, e).
        (accepted c).1 (λ div zero'. ok_ne_err z _ (sym e ∙ (by_division c.spec div).0 zero')),
  ),
  ((λ free. free), λ free. free),
)

to_int64-bits : (z : ℤ) (k : ℕ) → IsInt z → to_int64 (bits z + k * 18446744073709551616) ≡ z
unfolding bits to_int64 IsInt
to_int64-bits (pos n) k h = ground arith
to_int64-bits (negsuc n) k h = ground arith

to_int64-same :
    (m n : ℕ) → m % 18446744073709551616 ≡ n % 18446744073709551616 → to_int64 m ≡ to_int64 n
unfolding to_int64
to_int64-same m n h = rw h refl

-- Addition and subtraction of ints undo each other, whether or not they overflow.
add-sub : (a b : ℤ) → IsInt a → (sub_int (add_int a b) b ≡ a) × (add_int (sub_int a b) b ≡ a)
unfolding add_int sub_int
add-sub a b h =
    let below = bits-lt b in
    (
      rw bits-to_int64 (to_int64-same _ _ (omega arith) ∙ to_int64-bits a 0 h),
      rw bits-to_int64 (to_int64-same _ _ (omega arith) ∙ to_int64-bits a 0 h),
    )

module _ {W : Type 0} (api : Client W Calculate) (req : NamespacedName) (cal : Calculate) (w : W)
    (got : (api.get req w).0 ≡ ok cal) where
  reconcile_with_result :
      (z : ℤ)
      → calculate cal.spec ≡ ok z
      → let sent = record cal { result = z } in
        let run = reconcile api req w in
        (status_updates run.1 ≡ sent ∷ [])
        × (updates run.1 ≡ [])
        × (((api.update_status sent (api.get req w).1).0 ≡ none) ↔ (run.0 ≡ done no_requeue))
  unfolding reconcile reconcile_got reconcile_found status_updates updates
  reconcile_with_result z result = ground arith

  reconcile_without_result :
      HasNone cal.spec
      → let run = reconcile api req w in
        ((e : ApiError) × (run.0 ≡ fail e)) × (run.1 ≡ Call.get req ∷ [])
  unfolding reconcile reconcile_got reconcile_found
  reconcile_without_result unknown =
      let (e, why) = no_result cal.spec unknown in ((e, ground arith), ground arith)

  -- Where the object is found, either its action is none of the four or a division by 0, and `Reconcile`
  -- returns an error and asks nothing else of the API server; or its action has a result, the sum,
  -- the difference, the product or the quotient as the action says, and `Reconcile` sends one status update,
  -- the object with this result in its status, sends no update of the object itself, and ends with no error
  -- exactly when the status update does.
  pub reconcile_answers :
      let run = reconcile api req w in
      (HasNone cal.spec × ((e : ApiError) × (run.0 ≡ fail e)) × (run.1 ≡ Call.get req ∷ []))
      ⊎ ((z : ℤ) × IsResult cal.spec z
          × (status_updates run.1 ≡ record cal { result = z } ∷ [])
          × (updates run.1 ≡ [])
          × (((api.update_status (record cal { result = z }) (api.get req w).1).0 ≡ none)
              ↔ (run.0 ≡ done no_requeue)))
  reconcile_answers = elim (IsResult-cases cal.spec) [
    | inl unknown ↦
        let (failed, silent) = reconcile_without_result unknown in inl (unknown, failed, silent)
    | inr (z, right, e) ↦
        let (sent, still, ends) = reconcile_with_result z e in inr (z, right, sent, still, ends)
  ]
