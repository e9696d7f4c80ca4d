-- ===== src/ClientExamples/Scripts.antt =====
-- The ConfigMaps that three programs create and delete: client-go/workqueue/main.go, and
-- client-go/using-informers/ with informer-dynamic-simple/main.go and informer-typed-simple/main.go. What they
-- print, and the time that they wait, are left out.
use kubernetes_examples.Prelude.{
  zero, suc, ℕ, String, List, [], ◌∷◌, none, some, length, if◌then◌else◌, ◌==◌,
}
use kubernetes_examples.Prelude.Results.{ok, err, returned, panicked}
use kubernetes_examples.ClientExamples.ConfigMaps.{
  ConfigMap, ConfigMapClient, Script, return, ◌>>=◌, ◌>>◌,
}

abbrev pub namespace : String
namespace = "default"

-- What `createConfigMap` sends in each program; the label is a text with a random end.
unfoldable pub workqueue_map : ConfigMap
workqueue_map = record {
  namespace = namespace;
  name = "";
  generate_name = "workqueue-";
  labels = [];
  data' = some (("foo", "bar") ∷ []);
}

unfoldable pub dynamic_map : String → ConfigMap
dynamic_map label = record {
  namespace = namespace;
  name = "";
  generate_name = "informer-dynamic-simple-";
  labels = ("example", label) ∷ [];
  data' = some (("foo", "bar") ∷ []);
}

unfoldable pub typed_map : String → ConfigMap
typed_map label = record {
  namespace = namespace;
  name = "";
  generate_name = "informer-typed-simple-";
  labels = ("example", label) ∷ [];
  data' = some (("foo", "bar") ∷ []);
}

module _ {W : Type 0} (client : ConfigMapClient W) where
  unfoldable pub create_config_map : ConfigMap → Script W ConfigMap
  create_config_map cm w =
      let (r, w') = client.create namespace cm w in
      elim r [ ok made ↦ (returned made, w') | err e ↦ (panicked, w') ]

  unfoldable pub delete_config_map : ConfigMap → Script W (Unit {0})
  delete_config_map cm w =
      let (e, w') = client.delete cm.namespace cm.name w in
      elim e [ none ↦ (returned tt, w') | some _ ↦ (panicked, w') ]

  -- `cm1`, `cm2` and so on, in their order.
  unfoldable pub create_many : ℕ → Script W (List ConfigMap)
  create_many zero = return []
  create_many (suc n) = do
    cm ← create_config_map workqueue_map
    cms ← create_many n
    return (cm ∷ cms)

  unfoldable pub delete_many : List ConfigMap → Script W (Unit {0})
  delete_many [] = return tt
  delete_many (cm ∷ cms) = do delete_config_map cm; delete_many cms

  -- The objects that give the workers something to do.
  unfoldable pub exercise : Script W (Unit {0})
  exercise = do cms ← create_many 5; delete_many cms

  -- The wait for the cache, and the search by the label.
  unfoldable pub await_cache : Script W (Unit {0})
  await_cache w = if client.synced w then (returned tt, w) else (panicked, w)

  unfoldable pub expect_one : String → Script W (Unit {0})
  expect_one label w = elim (client.lister_list (("example", label) ∷ []) w) [
    | ok list ↦ if length list == 1 then (returned tt, w) else (panicked, w)
    | err e ↦ (panicked, w)
  ]

  -- `main` of both programs with an informer, from the first object on.
  unfoldable pub watch_config_maps : ConfigMap → String → Script W (Unit {0})
  watch_config_maps cm label = do
    first ← create_config_map cm
    await_cache
    expect_one label
    second ← create_config_map cm
    delete_config_map first
    delete_config_map second

  unfoldable pub dynamic_informer : String → Script W (Unit {0})
  dynamic_informer label = watch_config_maps (dynamic_map label) label

  unfoldable pub typed_informer : String → Script W (Unit {0})
  typed_informer label = watch_config_maps (typed_map label) label
