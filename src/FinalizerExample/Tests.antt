-- ===== src/FinalizerExample/Tests.antt =====
-- The theorems about the finalizer example at concrete clusters.
use kubernetes_examples.Prelude.{
  str_eq, true, ℕ, String, ◌≡◌, ◌≢◌, ◌*◌, refl, List, [], ◌∷◌, Option, some,
}
use kubernetes_examples.Kube.Objects.{NamespacedName, GroupVersionKind, Pod}
use kubernetes_examples.Kube.Effect.{done}
use kubernetes_examples.Kube.Client.{CtrlResult, second}
use kubernetes_examples.Kube.Store.{Store, store_client, plain_meta}
use kubernetes_examples.Kube.Trace.{deletes, updates}
use kubernetes_examples.FinalizerExample.Controller.{finalizer_name, SimpleApp, new_pod, reconcile}
use kubernetes_examples.FinalizerExample.Laws.{finalizer_waits_for_pods}

abbrev pub simple_app_kind : GroupVersionKind
simple_app_kind = record { group = "example.com"; version = "v1"; kind = "SimpleApp" }

abbrev shop : Option ℕ → List String → SimpleApp
shop time finalizers = record {
  meta = record {
    name = "shop";
    namespace = "default";
    uid = "u2";
    generation = 4;
    labels = [];
    finalizers = finalizers;
    deletion_timestamp = time;
    owner_references = [];
  };
  image = "shop:1";
  ready = true;
  observed_generation = 3;
}

abbrev pub leaving : SimpleApp
leaving = shop (some 7) (finalizer_name ∷ [])

abbrev pub pod : Pod
pod = new_pod plain_meta simple_app_kind leaving

abbrev pub key : NamespacedName
key = record { namespace = "default"; name = "shop" }

abbrev pub cluster : List Pod → Store SimpleApp
cluster pods = record { object = some leaving; pods = pods }

one_left : ◌≢◌ {A = List Pod} (pod ∷ []) []
one_left e = cc

finalizer_waits_for_pods_example :
    let run = reconcile store_client plain_meta simple_app_kind key (cluster (pod ∷ [])) in
    (updates run.1 ≡ [])
    × ((r : CtrlResult)
        → run.0 ≡ done r
        → (deletes run.1 ≡ pod ∷ []) × (r.requeue_after ≡ 5 * second))
unfolding store_client plain_meta str_eq
finalizer_waits_for_pods_example =
    finalizer_waits_for_pods store_client plain_meta simple_app_kind key leaving 7 (pod ∷ [])
      (cluster (pod ∷ [])) refl refl refl refl one_left
