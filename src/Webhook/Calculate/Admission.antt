-- ===== src/Webhook/Calculate/Admission.antt =====
-- webhook/using-kubebuilder/api/v1/calculate_webhook.go: defaults and validation.
use kubernetes_examples.Prelude.{String, List, [], ◌∷◌, if◌then◌else◌, str_eq}
use kubernetes_examples.Prelude.Int.{ℤ, pos, eqb_ℤ}
use kubernetes_examples.Webhook.Calculate.Types.{Calculate, action_div}

-- `field.Error`, as `field.Invalid` builds it.
pub record FieldError : Type 0 where
  pub field : String
  pub bad_value : ℤ
  pub detail : String

-- `Default` writes a log entry and changes nothing.
unfoldable pub default : Calculate → Calculate
default c = c

-- The list `allErrs`: an empty one is a nil error, by `ToAggregate`.
unfoldable pub validate : Calculate → List FieldError
validate c =
    if str_eq c.spec.action action_div
    then (if eqb_ℤ c.spec.second (pos 0)
        then record {
          field = "spec.second";
          bad_value = c.spec.second;
          detail = "the divisor cannot be zero whtn action is division";
        }
          ∷ []
        else [])
    else []

unfoldable pub validate_create : Calculate → List FieldError
validate_create c = validate c

unfoldable pub validate_update : Calculate → Calculate → List FieldError
validate_update c old = validate c

unfoldable pub validate_delete : Calculate → List FieldError
validate_delete c = []
