-- ===== src/Webhook/ByService/PatchLaws.antt =====
-- What the patch of a mutation does to an object, on the JSON patch semantics of RFC 6902.
use kubernetes_examples.Prelude.{
  ◌⊎◌, ◌↔◌, String, true, false, ◌≡◌, ◌≢◌, refl, ◌∙◌, inl, inr, List, [], ◌∷◌, none, if◌then◌else◌,
  arith, str_eq, str_eq_iff, str_eq_refl, str_eq_of_ne, index, lookup, insert, lookup-insert,
  has_key, StringMap, Bool-cases,
}
use kubernetes_examples.Webhook.ByService.Review.{
  ObjectMeta, PatchOperation, object, status_key, add_labels, required_labels, ignored_namespaces,
}
use kubernetes_examples.Webhook.ByService.Policy.{
  switched_off, admission_required, lower_is, mutation_required, validation_required,
}
use kubernetes_examples.Webhook.ByService.Patch.{
  update_annotation, missing_labels, update_labels, create_patch,
}
use kubernetes_examples.Webhook.ByService.Handlers.{mutation_patch, validate_meta}
use kubernetes_examples.Webhook.ByService.PolicyLaws.{
  mutation_required_iff, is_ignored_iff, Any, All,
}
use kubernetes_examples.Webhook.ByService.HandlerLaws.{validate_meta-allowed_iff}

-- How the API server applies a patch. RFC 6902, 4.1: an `add` at a member of an object sets its value,
-- and replaces the value that the member had.
pub record JsonPatch : Type 0 where
  pub apply : List PatchOperation → ObjectMeta → ObjectMeta
  pub apply_nil : (meta : ObjectMeta) → apply [] meta ≡ meta
  pub apply_annotations :
      (value : StringMap) (ops : List PatchOperation) (meta : ObjectMeta)
      → apply
          (record { op = "add"; path = "/metadata/annotations"; value = object value } ∷ ops)
          meta
        ≡ apply ops (record meta { annotations = value })
  pub apply_labels :
      (value : StringMap) (ops : List PatchOperation) (meta : ObjectMeta)
      → apply (record { op = "add"; path = "/metadata/labels"; value = object value } ∷ ops) meta
        ≡ apply ops (record meta { labels = value })

-- The labels that the patch sets.
abbrev pub defaults_for : StringMap → StringMap
defaults_for labels = missing_labels labels [] add_labels

-- A set key is never among the additions.
missing_labels-set :
    (k : String) (target values added : StringMap)
    → index k target ≢ ""
    → lookup k values ≡ none
    → lookup k (missing_labels target values added) ≡ none
unfolding missing_labels
missing_labels-set k target values [] set unseen = unseen
missing_labels-set k target values ((j, v) ∷ added) set unseen =
    missing_labels-set k target (if str_eq (index j target) "" then insert j v values else values)
      added set
      (elim (Bool-cases (str_eq (index j target) "")) [
        | inl e ↦ rw e (
            lookup-insert j k v values
            ∙ rw (str_eq_of_ne j k (λ same. set (rw same at ((str_eq_iff _ _).0 e)))) unseen)
        | inr e ↦ rw e unseen
      ])

-- What was added stays.
missing_labels-kept :
    (k : String) (target values added : StringMap)
    → has_key k values ≡ true
    → has_key k (missing_labels target values added) ≡ true
unfolding missing_labels has_key
missing_labels-kept k target values [] h = h
missing_labels-kept k target values ((j, v) ∷ added) h =
    missing_labels-kept k target (if str_eq (index j target) "" then insert j v values else values)
      added (ground (arith, h, lookup-insert j k v values))

-- An addition whose key is not set arrives.
missing_labels-unset :
    (k : String) (target values added : StringMap)
    → index k target ≡ ""
    → has_key k added ≡ true
    → has_key k (missing_labels target values added) ≡ true
unfolding missing_labels has_key lookup
missing_labels-unset k target values [] unset h = cc
missing_labels-unset k target values ((j, v) ∷ added) unset h = elim (Bool-cases (str_eq j k)) [
  | inl e ↦
      let same : j ≡ k = (str_eq_iff _ _).0 e in
      missing_labels-kept k target _ added
        (rw (same, unset, str_eq_refl "") (rw (lookup-insert k k v values, str_eq_refl k)))
  | inr e ↦
      missing_labels-unset k target
        (if str_eq (index j target) "" then insert j v values else values) added unset (rw e at h)
]

unset-or-set :
    (meta : ObjectMeta) (ls : List String)
    → All (λ l. index l meta.labels ≡ "") ls ⊎ Any (λ l. index l meta.labels ≢ "") ls
unset-or-set meta [] = inl tt
unset-or-set meta (l ∷ ls) = elim (Bool-cases (str_eq (index l meta.labels) "")) [
  | inl e ↦ elim (unset-or-set meta ls) [
    | inl bare ↦ inl ((str_eq_iff _ _).0 e, bare)
    | inr labelled ↦ inr (inr labelled)
  ]
  | inr e ↦ inr (inl (λ same. ground (arith, e, str_eq_iff (index l meta.labels) "", same)))
]

module _ (json : JsonPatch) where
  -- The object with the patch applied.
  unfoldable pub after_patch : ObjectMeta → ObjectMeta
  after_patch meta = json.apply (mutation_patch meta) meta

  after_patch_lem :
      (meta : ObjectMeta)
      → after_patch meta ≡ record meta {
        labels = defaults_for meta.labels;
        annotations = (status_key, "mutated") ∷ [];
      }
  unfolding after_patch mutation_patch create_patch update_annotation update_labels index lookup
      str_eq
  after_patch_lem meta =
      json.apply_annotations _ _ meta ∙ json.apply_labels _ _ _ ∙ json.apply_nil _

  -- The object that the server stores when `mutate` has answered: a patch is sent where a mutation is
  -- required, and otherwise the object is let through as it is.
  unfoldable pub mutated : List String → ObjectMeta → ObjectMeta
  mutated ignored meta = if mutation_required ignored meta then after_patch meta else meta

  mutated-required :
      (ignored : List String) (meta : ObjectMeta)
      → mutation_required ignored meta ≡ true
      → mutated ignored meta ≡ after_patch meta
  unfolding mutated
  mutated-required ignored meta required = rw required refl

  patch-suffices :
      (ignored : List String) (meta : ObjectMeta)
      → mutation_required ignored (after_patch meta) ≡ false
  unfolding mutation_required lower_is index lookup str_eq
  patch-suffices ignored meta = rw (after_patch_lem meta) refl

  -- The object that `mutate` leaves needs no further mutation; and if it was changed, then it needs none
  -- under other ignored namespaces either.
  pub mutation_idempotent :
      (ignored : List String) (meta : ObjectMeta)
      → (mutation_required ignored (mutated ignored meta) ≡ false)
        × ((mutated ignored meta ≡ meta)
            ⊎ ((others : List String) → mutation_required others (mutated ignored meta) ≡ false))
  unfolding mutated
  mutation_idempotent ignored meta = elim (Bool-cases (mutation_required ignored meta)) [
    | inl e ↦ rw e (patch-suffices ignored meta, inr (λ others. patch-suffices others meta))
    | inr e ↦ rw e (e, inl refl)
  ]

  -- Every label that is set to a text other than "" is gone after the mutation.
  set_labels_lost :
      (meta : ObjectMeta) (k : String)
      → index k meta.labels ≢ ""
      → lookup k (after_patch meta).labels ≡ none
  unfolding lookup
  set_labels_lost meta k set =
      rw (after_patch_lem meta) (missing_labels-set k meta.labels [] add_labels set refl)

  clash :
      (meta : ObjectMeta) (ls : List String)
      → Any (λ l. index l meta.labels ≢ "") ls
      → All (λ l. has_key l (after_patch meta).labels ≡ true) ls
      → ⊥
  unfolding has_key
  clash meta [] a h = a
  clash meta (l ∷ ls) (inl set) h = cc (set_labels_lost meta l set, h.0)
  clash meta (l ∷ ls) (inr a) h = clash meta ls a h.1

  arrives :
      (meta : ObjectMeta) (l : String)
      → index l meta.labels ≡ ""
      → has_key l add_labels ≡ true
      → has_key l (after_patch meta).labels ≡ true
  arrives meta l unset known =
      rw (after_patch_lem meta) (missing_labels-unset l meta.labels [] add_labels unset known)

  required_arrive :
      (meta : ObjectMeta) (ls : List String)
      → All (λ l. index l meta.labels ≡ "") ls
      → All (λ l. has_key l add_labels ≡ true) ls
      → All (λ l. has_key l (after_patch meta).labels ≡ true) ls
  required_arrive meta [] bare known = tt
  required_arrive meta (l ∷ ls) bare known =
      (arrives meta l bare.0 known.0, required_arrive meta ls bare.1 known.1)

  -- If none of the required labels was set, `validate` lets the object pass that `mutate` leaves.
  unlabelled_then_allowed :
      (Bytes : Type 0) (meta : ObjectMeta)
      → All (λ l. index l meta.labels ≡ "") required_labels
      → (validate_meta {Bytes = Bytes} (after_patch meta)).allowed ≡ true
  unfolding has_key lookup str_eq
  unlabelled_then_allowed Bytes meta bare = (validate_meta-allowed_iff Bytes (after_patch meta)).1 (
      inr (
        required_arrive meta required_labels bare
          (refl, (refl, (refl, (refl, (refl, (refl, tt))))))))

  module _ (meta : ObjectMeta) (seen : All (λ n. meta.namespace ≢ n) ignored_namespaces) where
    validation_required_after : validation_required ignored_namespaces (after_patch meta) ≡ true
    unfolding validation_required admission_required lookup index str_eq switched_off lower_is
    validation_required_after =
        rw (after_patch_lem meta) (rw ((is_ignored_iff ignored_namespaces meta.namespace).1 seen))

    labelled_then_denied :
        (Bytes : Type 0)
        → Any (λ l. index l meta.labels ≢ "") required_labels
        → (validate_meta {Bytes = Bytes} (after_patch meta)).allowed ≡ false
    labelled_then_denied Bytes labelled =
        elim (Bool-cases (validate_meta {Bytes = Bytes} (after_patch meta)).allowed) [
          | inr e ↦ e
          | inl e ↦ elim ((validate_meta-allowed_iff Bytes (after_patch meta)).0 e) [
            | inl skipped ↦ cc (validation_required_after)
            | inr all_set ↦ absurd (clash meta required_labels labelled all_set)
          ]
        ]

  -- Where `mutate` requires a mutation, `validate` lets the object pass that `mutate` leaves exactly when none
  -- of the required labels was set.
  pub mutated-allowed_iff :
      (Bytes : Type 0) (meta : ObjectMeta)
      → mutation_required ignored_namespaces meta ≡ true
      → ((validate_meta {Bytes = Bytes} (mutated ignored_namespaces meta)).allowed ≡ true)
        ↔ All (λ l. index l meta.labels ≡ "") required_labels
  mutated-allowed_iff Bytes meta required =
      let outside = ((mutation_required_iff ignored_namespaces meta).0 required).0 in
      rw (mutated-required ignored_namespaces meta required) (
        λ passes. elim (unset-or-set meta required_labels) [
          | inl bare ↦ bare
          | inr labelled ↦ cc (labelled_then_denied meta outside Bytes labelled, passes)
        ],
        unlabelled_then_allowed Bytes meta,
      )
