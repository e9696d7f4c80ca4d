-- ===== src/Webhook/Calculate/Tests.antt =====
-- The theorems about Calculate at concrete objects.
use kubernetes_examples.Prelude.{
  ◌⊎◌, String, ◌≡◌, ◌↔◌, inr, refl, [], ◌∷◌, Option, none, some, arith, str_eq,
}
use kubernetes_examples.Prelude.Int.{bits, to_int64, ℤ, pos, negsuc}
use kubernetes_examples.Kube.Objects.{NamespacedName, ObjectMeta}
use kubernetes_examples.Kube.Effect.{Call, ApiError, done, fail, ok}
use kubernetes_examples.Kube.Client.{no_requeue}
use kubernetes_examples.Kube.Store.{Store, store_client}
use kubernetes_examples.Kube.Trace.{status_updates, updates}
use kubernetes_examples.Webhook.Calculate.Types.{negated, div_int, Calculate, add_int}
use kubernetes_examples.Webhook.Calculate.Admission.{validate_create, validate_update}
use kubernetes_examples.Webhook.Calculate.Controller.{calculate, reconcile}
use kubernetes_examples.Webhook.Calculate.Laws.{
  IsAction, HasNone, IsInt, IsResult, validate-calculate, reconcile_answers,
}

abbrev sum_meta : ObjectMeta
sum_meta = record {
  name = "sum";
  namespace = "default";
  uid = "c1";
  generation = 1;
  labels = [];
  finalizers = [];
  deletion_timestamp = none;
  owner_references = [];
}

abbrev asks : String → ℤ → ℤ → Calculate
asks action a b = record {
  meta = sum_meta;
  spec = record { action = action; first = a; second = b };
  result = pos 0;
}

abbrev holding : Calculate → Store Calculate
holding c = record { object = some c; pods = [] }

abbrev key : NamespacedName
key = record { namespace = "default"; name = "sum" }

div_known : IsAction "div"
unfolding IsAction
div_known = inr (inr (inr refl))

validate-calculate_example :
    ((validate_create (asks "div" (pos 7) (pos 0)) ≡ [])
      ↔ ((z : ℤ) × (calculate (asks "div" (pos 7) (pos 0)).spec ≡ ok z)))
    × ((validate_update (asks "div" (pos 7) (pos 0)) (asks "add" (pos 1) (pos 2)) ≡ [])
        ↔ (validate_create (asks "div" (pos 7) (pos 0)) ≡ []))
validate-calculate_example =
    validate-calculate (asks "div" (pos 7) (pos 0)) (asks "add" (pos 1) (pos 2)) div_known

largest_IsInt : IsInt (pos 9223372036854775807)
unfolding IsInt
largest_IsInt = omega arith

overflow : add_int (pos 9223372036854775807) (pos 1) ≡ negsuc 9223372036854775807
unfolding add_int to_int64 bits
overflow = refl

minus_three : calculate (asks "div" (negsuc 6) (pos 2)).spec ≡ ok (negsuc 2)
unfolding calculate str_eq div_int negated to_int64
minus_three = refl

reconcile_answers_example :
    let asked = asks "div" (negsuc 6) (pos 2) in
    let run = reconcile store_client key (holding asked) in
    (HasNone asked.spec × ((e : ApiError) × (run.0 ≡ fail e)) × (run.1 ≡ Call.get key ∷ []))
    ⊎ ((z : ℤ) × IsResult asked.spec z
        × (status_updates run.1 ≡ record asked { result = z } ∷ [])
        × (updates run.1 ≡ [])
        × ((◌≡◌ {A = Option ApiError} none none) ↔ (run.0 ≡ done no_requeue)))
unfolding store_client
reconcile_answers_example =
    reconcile_answers store_client key (asks "div" (negsuc 6) (pos 2))
      (holding (asks "div" (negsuc 6) (pos 2))) refl
