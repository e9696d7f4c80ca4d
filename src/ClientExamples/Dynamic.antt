-- ===== src/ClientExamples/Dynamic.antt =====
-- client-go/using-dynamic-interface/advanced_example.go: one ConfigMap is created, updated and deleted. What the
-- program prints is left out, and the Pods that it lists with it.
use kubernetes_examples.Prelude.{[], ◌∷◌, Option, none, some, insert}
use kubernetes_examples.Prelude.Results.{ok, err, returned, panicked}
use kubernetes_examples.ClientExamples.ConfigMaps.{ConfigMap, ConfigMapClient, Script, ◌>>◌}

unfoldable pub example_config : ConfigMap
example_config = record {
  namespace = "default";
  name = "example-config";
  generate_name = "";
  labels = [];
  data' = some (("app.name", "dynamic-client") ∷ ("app.version", "1.0.0") ∷ []);
}

-- The object with the new version. `obj.Object["data"].(map[string]any)` panics where there is no data.
unfoldable pub with_version : ConfigMap → Option ConfigMap
with_version obj = elim obj.data' [
  | none ↦ none
  | some data' ↦ some (record obj { data' = some (insert "app.version" "2.0.0" data') })
]

module _ {W : Type 0} (client : ConfigMapClient W) where
  -- An error is printed, and the program goes on.
  unfoldable pub create_example : Script W (Unit {0})
  create_example w = let (_, w') = client.create "default" example_config w in (returned tt, w')

  unfoldable pub send_update : Option ConfigMap → Script W (Unit {0})
  send_update none w = (panicked, w)
  send_update (some obj) w = let (_, w') = client.update "default" obj w in (returned tt, w')

  unfoldable pub update_example : Script W (Unit {0})
  update_example w =
      let (got, w') = client.get "default" "example-config" w in
      elim got [ ok obj ↦ send_update (with_version obj) w' | err e ↦ (returned tt, w') ]

  unfoldable pub delete_example : Script W (Unit {0})
  delete_example w = let (_, w') = client.delete "default" "example-config" w in (returned tt, w')

  unfoldable pub manage_example : Script W (Unit {0})
  manage_example = do create_example; update_example; delete_example
