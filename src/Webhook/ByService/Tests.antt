-- ===== src/Webhook/ByService/Tests.antt =====
-- The theorems about the webhook at concrete objects.
use kubernetes_examples.Prelude.{
  lookup, str_eq_iff, ◌==◌, ℕ, String, true, false, ◌≡◌, ◌≢◌, ◌⊎◌, ◌↔◌, refl, List, [], ◌∷◌, none,
  some, arith, index, str_eq, has_key, StringMap, if◌then◌else◌,
}
use kubernetes_examples.Webhook.ByService.Review.{
  ObjectMeta, PatchOperation, text, object, name_label, required_labels, ignored_namespaces,
  AdmissionRequest,
}
use kubernetes_examples.Webhook.ByService.Policy.{
  lower_is, switched_off, is_ignored, admission_required, mutation_required, validation_required,
}
use kubernetes_examples.Webhook.ByService.Handlers.{Codec, parsed, bad, validate_meta}
use kubernetes_examples.Webhook.ByService.Server.{HttpRequest, Wire, crashed, read_body, serve}
use kubernetes_examples.Webhook.ByService.PolicyLaws.{All}
use kubernetes_examples.Webhook.ByService.HandlerLaws.{validate_meta-allowed_iff}
use kubernetes_examples.Webhook.ByService.PatchLaws.{
  JsonPatch, mutated, mutation_idempotent, mutated-allowed_iff,
}
use kubernetes_examples.Webhook.ByService.ServerLaws.{IsUnsupported, serve-crashed_iff}

-- A patch applied as RFC 6902 says, for the two members that the webhook adds.
apply_op : PatchOperation → ObjectMeta → ObjectMeta
apply_op op meta = elim op.value [
  | text _ ↦ meta
  | object m ↦
      if str_eq op.path "/metadata/annotations"
      then record meta { annotations = m }
      else if str_eq op.path "/metadata/labels"
      then record meta { labels = m }
      else meta
]

apply_all : List PatchOperation → ObjectMeta → ObjectMeta
apply_all [] meta = meta
apply_all (op ∷ ops) meta = apply_all ops (apply_op op meta)

apply_all-annotations :
    (value : StringMap) (ops : List PatchOperation) (meta : ObjectMeta)
    → apply_all
        (record { op = "add"; path = "/metadata/annotations"; value = object value } ∷ ops)
        meta
      ≡ apply_all ops (record meta { annotations = value })
unfolding apply_all apply_op str_eq
apply_all-annotations value ops meta = refl

apply_all-labels :
    (value : StringMap) (ops : List PatchOperation) (meta : ObjectMeta)
    → apply_all (record { op = "add"; path = "/metadata/labels"; value = object value } ∷ ops) meta
      ≡ apply_all ops (record meta { labels = value })
unfolding apply_all apply_op str_eq
apply_all-labels value ops meta = refl

apply_all-nil : (meta : ObjectMeta) → apply_all [] meta ≡ meta
unfolding apply_all
apply_all-nil meta = refl

abbrev rfc6902 : JsonPatch
rfc6902 = record {
  apply = apply_all;
  apply_nil = apply_all-nil;
  apply_annotations = apply_all-annotations;
  apply_labels = apply_all-labels;
}

abbrev named : ObjectMeta
named = record {
  name = "web";
  namespace = "default";
  labels = (name_label, "web") ∷ ("tier", "front") ∷ [];
  annotations = ("owner", "team-a") ∷ [];
}

abbrev bare : ObjectMeta
bare = record { name = "web"; namespace = "default"; labels = []; annotations = [] }

mutation_idempotent_example :
    (mutation_required ignored_namespaces (mutated rfc6902 ignored_namespaces named) ≡ false)
    × ((mutated rfc6902 ignored_namespaces named ≡ named)
        ⊎ ((others : List String)
            → mutation_required others (mutated rfc6902 ignored_namespaces named) ≡ false))
mutation_idempotent_example = mutation_idempotent rfc6902 ignored_namespaces named

named_required : mutation_required ignored_namespaces named ≡ true
unfolding mutation_required admission_required is_ignored switched_off lower_is index lookup str_eq
named_required = refl

mutated-allowed_iff_example :
    ((validate_meta {Bytes = ℕ} (mutated rfc6902 ignored_namespaces named)).allowed ≡ true)
    ↔ All (λ l. index l named.labels ≡ "") required_labels
mutated-allowed_iff_example = mutated-allowed_iff rfc6902 ℕ named named_required

validate_meta-allowed_iff_example : ((validate_meta {Bytes = ℕ} named).allowed ≡ true) ↔ (
    (validation_required ignored_namespaces named ≡ false)
    ⊎ All (λ l. has_key l named.labels ≡ true) required_labels)
validate_meta-allowed_iff_example = validate_meta-allowed_iff ℕ named

abbrev codec : Codec ℕ
codec = record {
  deployment_meta = λ b. parsed named;
  service_meta = λ b. bad "no service";
  marshal = λ ops. parsed 9;
}

abbrev of_kind : String → AdmissionRequest ℕ
of_kind kind = record { uid = "r1"; kind = kind; object = 5 }

pod_ne_deployment : ◌≢◌ {A = String} "Pod" "Deployment"
unfolding str_eq
pod_ne_deployment e = ground (arith, str_eq_iff "Pod" "Deployment", e)

pod_ne_service : ◌≢◌ {A = String} "Pod" "Service"
unfolding str_eq
pod_ne_service e = ground (arith, str_eq_iff "Pod" "Service", e)

abbrev wire : Wire ℕ
wire = record {
  empty = 0;
  is_empty = λ b. b == 0;
  decode = λ b. (some (of_kind "Pod"), none);
  marshal_review = λ r. parsed 7;
  write_error = λ b. none;
}

abbrev post : HttpRequest ℕ
post = record { body = some (parsed 3); content_type = "application/json"; path = "/mutate" }

serve-crashed_iff_example : (serve codec wire post ≡ crashed) ↔ (
    (wire.is_empty (read_body codec wire post.body) ≡ false)
    × (post.content_type ≡ "application/json")
    × ((wire.decode 3).1 ≡ none)
    × ((post.path ≡ "/mutate") ⊎ (post.path ≡ "/validate"))
    × IsUnsupported (wire.decode 3).0)
serve-crashed_iff_example = serve-crashed_iff codec wire post
