-- ===== src/Webhook/ByService/Review.antt =====
-- webhook.go: the constants and tables, and the parts of k8s.io/api/admission that the handlers use.
use kubernetes_examples.Prelude.{String, Bool, List, [], ◌∷◌, Option, StringMap}

-- The fields of an ObjectMeta that the webhook reads.
pub record ObjectMeta : Type 0 where
  pub name : String
  pub namespace : String
  pub labels : StringMap
  pub annotations : StringMap

abbrev pub validate_key : String
validate_key = "admission-webhook-example.qikqiak.com/validate"

abbrev pub mutate_key : String
mutate_key = "admission-webhook-example.qikqiak.com/mutate"

abbrev pub status_key : String
status_key = "admission-webhook-example.qikqiak.com/status"

abbrev pub name_label : String
name_label = "app.kubernetes.io/name"

abbrev pub instance_label : String
instance_label = "app.kubernetes.io/instance"

abbrev pub version_label : String
version_label = "app.kubernetes.io/version"

abbrev pub component_label : String
component_label = "app.kubernetes.io/component"

abbrev pub part_of_label : String
part_of_label = "app.kubernetes.io/part-of"

abbrev pub managed_by_label : String
managed_by_label = "app.kubernetes.io/managed-by"

abbrev pub not_available : String
not_available = "not_available"

-- `metav1.NamespaceSystem` and `metav1.NamespacePublic`.
abbrev pub ignored_namespaces : List String
ignored_namespaces = "kube-system" ∷ "kube-public" ∷ []

abbrev pub required_labels : List String
required_labels =
    name_label ∷ instance_label ∷ version_label ∷ component_label ∷ part_of_label ∷ managed_by_label
    ∷ []

abbrev pub add_labels : StringMap
add_labels =
    (name_label, not_available)
    ∷ (instance_label, not_available)
    ∷ (version_label, not_available)
    ∷ (component_label, not_available)
    ∷ (part_of_label, not_available)
    ∷ (managed_by_label, not_available)
    ∷ []

-- The `Value` of a patch operation: a text or a map.
pub data PatchValue : Type 0 where
  text : String → PatchValue
  object : StringMap → PatchValue

-- `patchOperation`
pub record PatchOperation : Type 0 where
  pub op : String
  pub path : String
  pub value : PatchValue

-- `metav1.Status`, as the handlers fill it.
pub data Status : Type 0 where
  message : String → Status
  reason : String → Status

-- `AdmissionRequest`; `Bytes` is the type of encoded texts.
pub record AdmissionRequest (Bytes : Type 0) : Type 0 where
  pub uid : String
  pub kind : String
  pub object : Bytes

-- `AdmissionResponse`. A patch comes with the patch type JSONPatch.
pub record AdmissionResponse (Bytes : Type 0) : Type 0 where
  pub uid : String
  pub allowed : Bool
  pub result : Option Status
  pub patch : Option Bytes
  pub patch_type : Option String
