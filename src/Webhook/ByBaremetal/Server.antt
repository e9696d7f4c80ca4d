-- ===== src/Webhook/ByBaremetal/Server.antt =====
-- webhook/using-byhand/by-baremetal/main.go: the handler `mutate`. What it prints is left out.
use kubernetes_examples.Prelude.Results.{Attempt, ok, err}
use kubernetes_examples.Prelude.{
  ℕ, String, Bool, true, false, List, [], ◌∷◌, ◌++◌, Option, none, some, StringMap, insert,
}

-- The operations on the response writer, in order.
pub data Write (Bytes : Type 0) : Type 0 where
  http_error : String → ℕ → Write Bytes
  body : Bytes → Write Bytes

pub record PatchOperation : Type 0 where
  pub op : String
  pub path : String
  pub value : StringMap

pub record AdmissionRequest (Bytes : Type 0) : Type 0 where
  pub uid : String
  pub object : Bytes

-- The `AdmissionReview` of the response; a nil slice of bytes is `none`.
pub record ResponseReview (Bytes : Type 0) : Type 0 where
  pub api_version : String
  pub kind : String
  pub uid : String
  pub allowed : Bool
  pub patch : Option Bytes
  pub patch_type : String

-- Decoders and encoders, and the response writer. A review may hold no request; of a Pod the handler reads
-- the annotations, where a nil map is the empty one.
pub record Wire (Bytes : Type 0) : Type 0 where
  pub decode_review : Bytes → Attempt (Option (AdmissionRequest Bytes))
  pub pod_annotations : Bytes → Attempt StringMap
  pub marshal_patch : List PatchOperation → Attempt Bytes
  pub marshal_review : ResponseReview Bytes → Attempt Bytes
  pub write : Bytes → Option String

-- The writes of the handler, and whether it panicked.
pub record Served (Bytes : Type 0) : Type 0 where
  pub writes : List (Write Bytes)
  pub panicked : Bool

abbrev pub miner_key : String
miner_key = "apps.onex.io/miner-type"

abbrev pub miner_value : String
miner_value = "S1.SMALL1"

unfoldable pub build_patch : StringMap → List PatchOperation
build_patch annotations =
    record {
      op = "add";
      path = "/metadata/annotations";
      value = insert miner_key miner_value annotations;
    }
    ∷ []

module _ {Bytes : Type 0} (wire : Wire Bytes) where
  abbrev pub refuse : List (Write Bytes) → String → Served Bytes
  refuse before e = record { writes = before ++ http_error e 500 ∷ []; panicked = false }

  -- `w.Write`, whose error is answered in its turn.
  unfoldable pub write_out : List (Write Bytes) → Bytes → Served Bytes
  write_out before resp = elim (wire.write resp) [
    | none ↦ record { writes = before ++ body resp ∷ []; panicked = false }
    | some e ↦ record { writes = before ++ body resp ∷ http_error e 500 ∷ []; panicked = false }
  ]

  unfoldable pub review_of : String → Option Bytes → ResponseReview Bytes
  review_of uid patch = record {
    api_version = "admission.k8s.io/v1";
    kind = "AdmissionReview";
    uid = uid;
    allowed = true;
    patch = patch;
    patch_type = "JSONPatch";
  }

  unfoldable pub answer : List (Write Bytes) → String → Option Bytes → Served Bytes
  answer before uid patch = elim (wire.marshal_review (review_of uid patch)) [
    | err e ↦ refuse before e
    | ok resp ↦ write_out before resp
  ]

  -- A patch that cannot be encoded is answered with an error, and the handler goes on without it.
  unfoldable pub on_pod : String → StringMap → Served Bytes
  on_pod uid annotations = elim (wire.marshal_patch (build_patch annotations)) [
    | err e ↦ answer (http_error e 500 ∷ []) uid none
    | ok patch ↦ answer [] uid (some patch)
  ]

  unfoldable pub on_request : AdmissionRequest Bytes → Served Bytes
  on_request req = elim (wire.pod_annotations req.object) [
    | err e ↦ refuse [] e
    | ok annotations ↦ on_pod req.uid annotations
  ]

  -- A review with no request makes the handler panic.
  unfoldable pub on_review : Attempt (Option (AdmissionRequest Bytes)) → Served Bytes
  on_review (err e) = refuse [] e
  on_review (ok none) = record { writes = []; panicked = true }
  on_review (ok (some req)) = on_request req

  unfoldable pub mutate : Attempt Bytes → Served Bytes
  mutate (err e) = refuse [] e
  mutate (ok bytes) = on_review (wire.decode_review bytes)
