-- ===== src/Webhook/Calculate/Controller.antt =====
-- webhook/using-kubebuilder/internal/controller/calculate_controller.go: the reconciler.
use kubernetes_examples.Prelude.{if◌then◌else◌, str_eq}
use kubernetes_examples.Prelude.Int.{mul_int, ℤ, pos, eqb_ℤ}
use kubernetes_examples.Kube.Objects.{NamespacedName}
use kubernetes_examples.Kube.Effect.{
  failure, is_not_found, Result, ok, err, M, pure, throw, ◌>>=◌, ◌>>◌, check, value_of,
}
use kubernetes_examples.Kube.Client.{CtrlResult, no_requeue, Client, get, update_status}
use kubernetes_examples.Webhook.Calculate.Types.{
  CalculateSpec, Calculate, action_add, action_sub, action_mul, action_div, add_int, sub_int,
  div_int,
}

-- The `switch` over the action.
unfoldable pub calculate : CalculateSpec → Result ℤ
calculate s =
    if str_eq s.action action_add
    then ok (add_int s.first s.second)
    else if str_eq s.action action_sub
    then ok (sub_int s.first s.second)
    else if str_eq s.action action_mul
    then ok (mul_int s.first s.second)
    else if str_eq s.action action_div
    then (if eqb_ℤ s.second (pos 0)
        then err (failure "the divisor cannot be zero whtn action is division")
        else ok (div_int s.first s.second))
    else err (failure "unknown action type")

module _ {W : Type 0} (api : Client W Calculate) where
  unfoldable pub reconcile_found : Calculate → M W Calculate CtrlResult
  reconcile_found cal = do
    result ← value_of (calculate cal.spec)
    e ← update_status api (record cal { result = result })
    check e
    pure no_requeue

  unfoldable pub reconcile_got : Result Calculate → M W Calculate CtrlResult
  reconcile_got (ok cal) = reconcile_found cal
  reconcile_got (err e) = if is_not_found e then pure no_requeue else throw e

  unfoldable pub reconcile : NamespacedName → M W Calculate CtrlResult
  reconcile req = do got ← get api req; reconcile_got got
