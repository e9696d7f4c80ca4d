-- ===== src/Webhook/ByService/PolicyLaws.antt =====
-- When an admission is required.
use kubernetes_examples.Prelude.{
  ◌⊎◌, String, true, false, ◌≡◌, ◌≢◌, refl, ◌↔◌, List, [], ◌∷◌, arith, str_eq_iff, index,
}
use kubernetes_examples.Webhook.ByService.Review.{ObjectMeta, status_key, mutate_key}
use kubernetes_examples.Webhook.ByService.Policy.{
  lower_is, switched_off, is_ignored, admission_required, mutation_required,
}

-- Every element of a list has a property.
abbrev pub All {ℓ κ} : {A : Type ℓ} → (A → Type κ) → List A → Type κ
All P [] = Unit
All P (x ∷ xs) = P x × All P xs

-- Some element of a list has a property.
abbrev pub Any {ℓ} : {A : Type ℓ} → (A → Type 0) → List A → Type 0
Any P [] = ⊥
Any P (x ∷ xs) = P x ⊎ Any P xs

pub is_ignored_iff :
    (ignored : List String) (ns : String)
    → (is_ignored ignored ns ≡ false) ↔ All (λ n. ns ≢ n) ignored
unfolding is_ignored
is_ignored_iff [] ns = (λ _. tt, λ _. refl)
is_ignored_iff (n ∷ ignored) ns = (
  λ e. ground (arith, e, is_ignored_iff ignored ns, str_eq_iff ns n),
  λ a. ground (arith, a.0, a.1, is_ignored_iff ignored ns, str_eq_iff ns n),
)

mutation_flags :
    (ignored : List String) (meta : ObjectMeta)
    → (mutation_required ignored meta ≡ true) ↔ (
        (is_ignored ignored meta.namespace ≡ false)
        × (switched_off (index mutate_key meta.annotations) ≡ false)
        × (lower_is (index status_key meta.annotations) "mutated" ≡ false))
unfolding mutation_required admission_required
mutation_flags ignored meta = ground arith

-- A mutation is required exactly when the namespace is none of the ignored ones, the annotation for
-- mutations does not switch it off, and the status annotation does not say that it was made.
pub mutation_required_iff :
    (ignored : List String) (meta : ObjectMeta)
    → (mutation_required ignored meta ≡ true) ↔ (
        All (λ n. meta.namespace ≢ n) ignored
        × (switched_off (index mutate_key meta.annotations) ≡ false)
        × (lower_is (index status_key meta.annotations) "mutated" ≡ false))
mutation_required_iff ignored meta =
    let (to, from) = mutation_flags ignored meta in
    let (seen, unseen) = is_ignored_iff ignored meta.namespace in
    (λ e. let (a, b, c) = to e in (seen a, b, c), λ (a, b, c). from (unseen a, b, c))
