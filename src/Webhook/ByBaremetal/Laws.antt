-- ===== src/Webhook/ByBaremetal/Laws.antt =====
-- What the webhook on bare metal answers.
use kubernetes_examples.Prelude.Results.{ok}
use kubernetes_examples.Prelude.{
  true, false, String, ◌≡◌, ◌≢◌, refl, [], ◌∷◌, none, some, arith, StringMap, insert, lookup,
  lookup-insert, str_eq_refl, str_eq_of_ne, sym,
}
use kubernetes_examples.Webhook.ByBaremetal.Server.{
  AdmissionRequest, Wire, body, miner_key, miner_value, build_patch, write_out, review_of, answer,
  on_pod, on_request, on_review, mutate,
}

module _ {Bytes : Type 0} (wire : Wire Bytes) where
  -- Where the request holds a Pod, its patch encodes, and `resp` is the encoding of the review that allows the
  -- request under its identifier with this JSON patch and can be written, the handler's one write is `resp`.
  -- The patch has one operation, which sets the annotations to those of the Pod, with the type of the miner
  -- in addition.
  pub mutate-keeps_annotations :
      (bytes patch resp : Bytes) (req : AdmissionRequest Bytes) (annotations : StringMap)
      → wire.decode_review bytes ≡ ok (some req)
      → wire.pod_annotations req.object ≡ ok annotations
      → wire.marshal_patch (build_patch annotations) ≡ ok patch
      → wire.marshal_review (record {
        api_version = "admission.k8s.io/v1";
        kind = "AdmissionReview";
        uid = req.uid;
        allowed = true;
        patch = some patch;
        patch_type = "JSONPatch";
      })
        ≡ ok resp
      → wire.write resp ≡ none
      → (mutate wire (ok bytes) ≡ record { writes = body resp ∷ []; panicked = false })
        × ((value : StringMap) × (build_patch annotations
              ≡ record { op = "add"; path = "/metadata/annotations"; value = value } ∷ [])
            × (lookup miner_key value ≡ some miner_value)
            × ((k : String) → k ≢ miner_key → lookup k value ≡ lookup k annotations))
  unfolding mutate on_review on_request on_pod answer write_out build_patch review_of
  mutate-keeps_annotations bytes patch resp req annotations decoded pod encoded review written = (
    ground (arith, decoded, pod, encoded, review, written),
    (
      insert miner_key miner_value annotations,
      refl,
      rw (lookup-insert miner_key miner_key miner_value annotations, str_eq_refl miner_key) refl,
      λ k other.
          rw
            (
              lookup-insert miner_key k miner_value annotations,
              str_eq_of_ne miner_key k (λ e. other (sym e)),
            )
            refl,
    ),
  )
