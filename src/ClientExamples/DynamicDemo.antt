-- ===== src/ClientExamples/DynamicDemo.antt =====
-- client-go/examples-from-other-repo/client-go-official-examples/dynamic-create-update-delete-deployment/main.go, from
-- the client on: the Deployment example with objects that have no type. The functions of
-- `unstructured` are parameters, and what the program prints is left out.
use kubernetes_examples.Prelude.{String, List, [], ◌∷◌, Option, none, some}
use kubernetes_examples.Prelude.Int.{ℤ, pos}
use kubernetes_examples.Prelude.Results.{Attempt, ok, err, returned, panicked}
use kubernetes_examples.ClientExamples.ConfigMaps.{Script, ◌>>◌}
use kubernetes_examples.ClientExamples.Deployments.{
  CallError, Reply, foreground, Propagation, Retry,
}
use kubernetes_examples.ClientExamples.Retrying.{error_of, expect_none, retry_edit}
use kubernetes_examples.ClientExamples.DemoDeployment.{prompt}

-- Values of type `interface{}` in an object, and objects: maps of type `map[string]interface{}`.
mutual
  pub data Value : Type 0 where
    text : String → Value
    integer : ℤ → Value
    slice : Items → Value
    object : Fields → Value

  pub data Items : Type 0 where
    no_items : Items
    item : Value → Items → Items

  pub data Fields : Type 0 where
    no_fields : Fields
    field : String → Value → Fields → Fields

-- `unstructured.SetNestedField` and `NestedSlice`; a value that is not found is none.
pub record NestedLib : Type 0 where
  pub set_nested_field : Fields → Value → List String → Attempt Fields
  pub nested_slice : Fields → List String → Attempt (Option Items)

-- The dynamic client for the Deployments of one namespace.
pub record DynamicClient (W : Type 0) : Type 0 where
  pub create : Fields → W → Reply Fields × W
  pub get : String → W → Reply Fields × W
  pub update : Fields → W → Reply Fields × W
  pub list : W → Reply (List Fields) × W
  pub delete : String → Propagation → W → Option CallError × W

abbrev only : String → Value → Fields
only name v = field name v no_fields

unfoldable pub demo_container : Fields
demo_container = field "name" (text "web") (
    field "image" (text "nginx:1.12") (
      only "ports" (
        slice (
          item
            (object (
              field "name" (text "http")
                (field "protocol" (text "TCP") (only "containerPort" (integer (pos 80))))))
            no_items))))

unfoldable pub demo_object : Fields
demo_object = field "apiVersion" (text "apps/v1") (
    field "kind" (text "Deployment") (
      field "metadata" (object (only "name" (text "demo-deployment"))) (
        only "spec" (
          object (
            field "replicas" (integer (pos 2)) (
              field "selector" (object (only "matchLabels" (object (only "app" (text "demo"))))) (
                only "template" (
                  object (
                    field "metadata" (object (only "labels" (object (only "app" (text "demo"))))) (
                      only "spec" (
                        object (
                          only "containers"
                            (slice (item (object demo_container) no_items))))))))))))))

abbrev containers_path : List String
containers_path = "spec" ∷ "template" ∷ "spec" ∷ "containers" ∷ []

abbrev value_or_panic : {A : Type 0} → Attempt A → Option A
value_or_panic (ok a) = some a
value_or_panic (err _) = none

module _ (lib : NestedLib) where
  -- `containers[0].(map[string]interface{})`, which panics on an empty slice and on another type, and the
  -- image of the container that it gives.
  unfoldable pub set_image : Items → Option Items
  set_image no_items = none
  set_image (item (object c) rest) =
      elim (lib.set_nested_field c (text "nginx:1.13") ("image" ∷ [])) [
        | err _ ↦ none
        | ok c' ↦ some (item (object c') rest)
      ]
  set_image (item (text _) rest) = none
  set_image (item (integer _) rest) = none
  set_image (item (slice _) rest) = none

  unfoldable pub set_containers : Fields → Option Items → Option Fields
  set_containers obj none = none
  set_containers obj (some items) = elim (set_image items) [
    | none ↦ none
    | some items' ↦ value_or_panic (lib.set_nested_field obj (slice items') containers_path)
  ]

  -- The edit of the function that is retried; each of its failures is a panic.
  unfoldable pub edited_object : Fields → Option Fields
  edited_object obj = elim (lib.set_nested_field obj (integer (pos 1)) ("spec" ∷ "replicas" ∷ [])) [
    | err _ ↦ none
    | ok obj1 ↦ elim (lib.nested_slice obj1 containers_path) [
      | err _ ↦ none
      | ok items ↦ set_containers obj1 items
    ]
  ]

  module _ {W : Type 0} (client : DynamicClient W) where
    unfoldable pub create_object : Script W (Unit {0})
    create_object w =
        let (answer, w') = client.create demo_object w in expect_none (error_of answer) w'

    unfoldable pub update_object : Retry W → Script W (Unit {0})
    update_object retry =
        retry_edit (client.get "demo-deployment") client.update edited_object retry

    -- The items are printed; one with no number of replicas is passed over.
    unfoldable pub list_objects : Script W (Unit {0})
    list_objects w =
        let (answer, w') = client.list w in
        elim answer [ Reply.err _ ↦ (panicked, w') | Reply.ok _ ↦ (returned tt, w') ]

    unfoldable pub delete_object : Script W (Unit {0})
    delete_object w =
        let (answer, w') = client.delete "demo-deployment" foreground w in expect_none answer w'

    unfoldable pub manage_object : Retry W → (W → Option String × W) → Script W (Unit {0})
    manage_object retry read_line = do
      create_object
      prompt read_line
      update_object retry
      prompt read_line
      list_objects
      prompt read_line
      delete_object
