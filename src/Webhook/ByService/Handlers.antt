-- ===== src/Webhook/ByService/Handlers.antt =====
-- webhook.go: `validate` and `mutate`. The decoding of an object and the encoding of a patch are
-- parameters; logging is left out.
use kubernetes_examples.Prelude.{
  String, true, false, List, [], ◌∷◌, Option, none, some, if◌then◌else◌, str_eq, has_key, StringMap,
}
use kubernetes_examples.Webhook.ByService.Review.{
  ObjectMeta, ignored_namespaces, required_labels, add_labels, status_key, PatchOperation, Status,
  message, reason, AdmissionRequest, AdmissionResponse,
}
use kubernetes_examples.Webhook.ByService.Policy.{mutation_required, validation_required}
use kubernetes_examples.Webhook.ByService.Patch.{create_patch}

-- A value, or the text of an error.
pub data Parsed {ℓ} (A : Type ℓ) : Type ℓ where
  parsed : A → Parsed A
  bad : String → Parsed A

-- How a handler ends: with a response, or in a panic.
pub data Reply (Bytes : Type 0) : Type 0 where
  respond : AdmissionResponse Bytes → Reply Bytes
  crash : Reply Bytes

-- `json.Unmarshal` into a Deployment and into a Service, of which only the metadata is used, and
-- `json.Marshal` of a patch.
pub record Codec (Bytes : Type 0) : Type 0 where
  pub deployment_meta : Bytes → Parsed ObjectMeta
  pub service_meta : Bytes → Parsed ObjectMeta
  pub marshal : List PatchOperation → Parsed Bytes

-- The switch over `req.Kind.Kind`; `none` is any other kind, at which `objectMeta` stays nil.
unfoldable pub decode_object :
    {Bytes : Type 0} → Codec Bytes → AdmissionRequest Bytes → Option (Parsed ObjectMeta)
decode_object codec req =
    if str_eq req.kind "Deployment"
    then some (codec.deployment_meta req.object)
    else if str_eq req.kind "Service"
    then some (codec.service_meta req.object)
    else none

-- `availableAnnotations` is declared and never assigned: the patch is made against no annotations.
unfoldable pub mutation_patch : ObjectMeta → List PatchOperation
mutation_patch meta = create_patch [] ((status_key, "mutated") ∷ []) meta.labels add_labels

module _ {Bytes : Type 0} where
  abbrev pub denied : Status → AdmissionResponse Bytes
  denied status = record {
    uid = "";
    allowed = false;
    result = some status;
    patch = none;
    patch_type = none;
  }

  abbrev pub admitted : AdmissionResponse Bytes
  admitted = record { uid = ""; allowed = true; result = none; patch = none; patch_type = none }

  -- The loop over the required labels, which stops at the first that is missing.
  unfoldable pub check_labels : List String → StringMap → AdmissionResponse Bytes
  check_labels [] available = admitted
  check_labels (rl ∷ rls) available =
      let rest = check_labels rls available in
      if has_key rl available then rest else denied (reason "required labels are not set")

  unfoldable pub validate_meta : ObjectMeta → AdmissionResponse Bytes
  validate_meta meta =
      if validation_required ignored_namespaces meta
      then check_labels required_labels meta.labels
      else admitted

  unfoldable pub patched : Parsed Bytes → AdmissionResponse Bytes
  patched (bad e) = denied (message e)
  patched (parsed bytes) = record {
    uid = "";
    allowed = true;
    result = none;
    patch = some bytes;
    patch_type = some "JSONPatch";
  }

  unfoldable pub mutate_meta : Codec Bytes → ObjectMeta → AdmissionResponse Bytes
  mutate_meta codec meta =
      if mutation_required ignored_namespaces meta
      then patched (codec.marshal (mutation_patch meta))
      else admitted

  -- A nil `objectMeta` is read at once, and the handler panics.
  unfoldable pub on_object :
      (ObjectMeta → AdmissionResponse Bytes) → Option (Parsed ObjectMeta) → Reply Bytes
  on_object handle none = crash
  on_object handle (some (bad e)) = respond (denied (message e))
  on_object handle (some (parsed meta)) = respond (handle meta)

  unfoldable pub validate : Codec Bytes → AdmissionRequest Bytes → Reply Bytes
  validate codec req = on_object validate_meta (decode_object codec req)

  unfoldable pub mutate : Codec Bytes → AdmissionRequest Bytes → Reply Bytes
  mutate codec req = on_object (mutate_meta codec) (decode_object codec req)
