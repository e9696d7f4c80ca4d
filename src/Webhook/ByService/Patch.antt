-- ===== src/Webhook/ByService/Patch.antt =====
-- webhook.go: the JSON patch of a mutation. Go ranges over a map in any order; the map of additions is
-- a list in the order of the range.
use kubernetes_examples.Prelude.{
  List, [], ◌∷◌, ◌++◌, if◌then◌else◌, str_eq, index, insert, StringMap,
}
use kubernetes_examples.Prelude.Decimal.{◌⧺◌}
use kubernetes_examples.Webhook.ByService.Review.{PatchOperation, text, object}

-- The loop of `updateAnnotation`, which empties `target` where it meets a key that is not set.
unfoldable pub update_annotation : StringMap → StringMap → List PatchOperation
update_annotation target [] = []
update_annotation target ((key, value) ∷ added) =
    let unset = str_eq (index key target) "" in
    let op : PatchOperation =
      if unset
      then record { op = "add"; path = "/metadata/annotations"; value = object ((key, value) ∷ []) }
      else record { op = "replace"; path = "/metadata/annotations/" ⧺ key; value = text value } in
    op ∷ update_annotation (if unset then [] else target) added

-- The loop of `updateLabels`: the additions whose key is not set.
unfoldable pub missing_labels : StringMap → StringMap → StringMap → StringMap
missing_labels target values [] = values
missing_labels target values ((key, value) ∷ added) =
    missing_labels target (if str_eq (index key target) "" then insert key value values else values)
      added

unfoldable pub update_labels : StringMap → StringMap → List PatchOperation
update_labels target added =
    record {
      op = "add";
      path = "/metadata/labels";
      value = object (missing_labels target [] added);
    }
    ∷ []

-- `createPatch`, before the encoding.
unfoldable pub create_patch :
    (available_annotations annotations available_labels labels : StringMap) → List PatchOperation
create_patch available_annotations annotations available_labels labels =
    update_annotation available_annotations annotations ++ update_labels available_labels labels
