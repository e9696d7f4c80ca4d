-- ===== src/Webhook/ByService/HandlerLaws.antt =====
-- What `validate` and `mutate` answer.
use kubernetes_examples.Prelude.{
  String, true, false, ◌≡◌, refl, ◌↔◌, ◌⊎◌, inl, inr, List, [], ◌∷◌, none, some, has_key, StringMap,
  Bool-cases,
}
use kubernetes_examples.Webhook.ByService.Review.{
  ObjectMeta, ignored_namespaces, required_labels, reason,
}
use kubernetes_examples.Webhook.ByService.Policy.{validation_required}
use kubernetes_examples.Webhook.ByService.Handlers.{check_labels, validate_meta}
use kubernetes_examples.Webhook.ByService.PolicyLaws.{All}

check_labels-allowed :
    (Bytes : Type 0) (required : List String) (available : StringMap)
    → ((check_labels {Bytes = Bytes} required available).allowed ≡ true)
      ↔ All (λ l. has_key l available ≡ true) required
unfolding check_labels
check_labels-allowed Bytes [] available = (λ _. tt, λ _. refl)
check_labels-allowed Bytes (l ∷ required) available =
    let (to, from) = check_labels-allowed Bytes required available in
    elim (Bool-cases (has_key l available)) [
      | inl e ↦ rw e (λ h. (refl, to h), λ a. from a.1)
      | inr e ↦ rw e (λ h. cc, λ a. cc)
    ]

-- `validate` lets an object pass exactly when its validation is not required, or each of the six
-- required labels is set on it.
pub validate_meta-allowed_iff :
    (Bytes : Type 0) (meta : ObjectMeta)
    → ((validate_meta {Bytes = Bytes} meta).allowed ≡ true) ↔ (
        (validation_required ignored_namespaces meta ≡ false)
        ⊎ All (λ l. has_key l meta.labels ≡ true) required_labels)
unfolding validate_meta
validate_meta-allowed_iff Bytes meta =
    let (to, from) = check_labels-allowed Bytes required_labels meta.labels in
    elim (Bool-cases (validation_required ignored_namespaces meta)) [
      | inl e ↦ rw e (λ h. inr (to h), elim [ inl x ↦ cc | inr a ↦ from a ])
      | inr e ↦ rw e (λ h. inl refl, λ _. refl)
    ]

check_labels-result :
    (Bytes : Type 0) (required : List String) (available : StringMap)
    → (((check_labels {Bytes = Bytes} required available).allowed ≡ true)
        × ((check_labels {Bytes = Bytes} required available).result ≡ none))
      ⊎ (((check_labels {Bytes = Bytes} required available).allowed ≡ false)
          × ((check_labels {Bytes = Bytes} required available).result
              ≡ some (reason "required labels are not set")))
unfolding check_labels
check_labels-result Bytes [] available = inl (refl, refl)
check_labels-result Bytes (l ∷ required) available = elim (Bool-cases (has_key l available)) [
  | inl e ↦ rw e (check_labels-result Bytes required available)
  | inr e ↦ rw e (inr (refl, refl))
]
