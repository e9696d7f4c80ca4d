-- ===== src/Webhook/ByBaremetal/Tests.antt =====
-- The theorem about the webhook on bare metal at a concrete Pod.
use kubernetes_examples.Prelude.Results.{ok}
use kubernetes_examples.Prelude.{
  false, ℕ, String, ◌≡◌, ◌≢◌, refl, [], ◌∷◌, none, some, StringMap, lookup,
}
use kubernetes_examples.Webhook.ByBaremetal.Server.{
  AdmissionRequest, Wire, body, miner_key, miner_value, build_patch, mutate,
}
use kubernetes_examples.Webhook.ByBaremetal.Laws.{mutate-keeps_annotations}

abbrev notes : StringMap
notes = ("team", "a") ∷ []

abbrev request : AdmissionRequest ℕ
request = record { uid = "r1"; object = 2 }

abbrev wire : Wire ℕ
wire = record {
  decode_review = λ b. ok (some request);
  pod_annotations = λ b. ok notes;
  marshal_patch = λ ops. ok 3;
  marshal_review = λ r. ok 4;
  write = λ b. none;
}

mutate-keeps_annotations_example :
    (mutate wire (ok 1) ≡ record { writes = body 4 ∷ []; panicked = false })
    × ((value : StringMap) × (build_patch notes
          ≡ record { op = "add"; path = "/metadata/annotations"; value = value } ∷ [])
        × (lookup miner_key value ≡ some miner_value)
        × ((k : String) → k ≢ miner_key → lookup k value ≡ lookup k notes))
mutate-keeps_annotations_example =
    mutate-keeps_annotations wire 1 3 4 request notes refl refl refl refl refl
