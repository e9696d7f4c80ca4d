-- ===== src/FinalizerExample/Controller.antt =====
-- finalizer-example/finalizer.go. The package of the SimpleApp type (finalizer-example/api/v1) is not in
-- the repository: its record holds the fields that the controller uses, and the kind that the package
-- would give is a parameter. Logging is left out.
use kubernetes_examples.Prelude.{
  ℕ, ◌*◌, String, Bool, true, false, List, [], ◌∷◌, Option, none, some, StringMap, if◌then◌else◌,
  length,
}
use kubernetes_examples.Prelude.Int.{ℤ, pos, ltb_ℤ, to_int32}
use kubernetes_examples.Prelude.Decimal.{◌⧺◌}
use kubernetes_examples.Kube.Objects.{NamespacedName, GroupVersionKind, ObjectMeta, Pod}
use kubernetes_examples.Kube.Effect.{
  ApiError, is_not_found, Result, ok, err, M, pure, throw, ◌>>=◌, ◌>>◌, check, value_of,
}
use kubernetes_examples.Kube.Client.{
  CtrlResult, no_requeue, second, Client, MetaLib, get, update, update_status, list, create, delete,
}

abbrev pub finalizer_name : String
finalizer_name = "simpleapp.example.com/finalizer"

pub record SimpleApp : Type 0 where
  pub meta : ObjectMeta
  pub image : String
  pub ready : Bool
  pub observed_generation : ℕ

unfoldable pub pod_labels : SimpleApp → StringMap
pod_labels app = ("app", app.meta.name) ∷ ("managed-by", "simpleapp-controller") ∷ []

unfoldable pub new_pod : MetaLib → GroupVersionKind → SimpleApp → Pod
unfolding pod_labels
new_pod lib kind app = record {
  meta = record {
    name = app.meta.name ⧺ "-pod";
    namespace = app.meta.namespace;
    uid = "";
    generation = 0;
    labels = pod_labels app;
    finalizers = [];
    deletion_timestamp = none;
    owner_references = lib.new_controller_ref app.meta kind ∷ [];
  };
  containers = record { name = "app"; image = app.image; container_ports = [] } ∷ [];
  restart_policy = "";
  phase = "";
  conditions = [];
}

abbrev desired_replicas : ℤ
desired_replicas = pos 1

module _ {W : Type 0} (api : Client W SimpleApp) (lib : MetaLib) (kind : GroupVersionKind) where
  unfoldable pub ensure_pod : SimpleApp → List Pod → M W SimpleApp (Unit {0})
  ensure_pod app items =
      if ltb_ℤ (to_int32 (length items)) desired_replicas
      then create api (new_pod lib kind app) >>= check
      else pure tt

  unfoldable pub reconcile_pods : SimpleApp → M W SimpleApp (Unit {0})
  reconcile_pods app = do
    listed ← list api app.meta.namespace (pod_labels app)
    items ← value_of listed
    ensure_pod app items

  -- An error counts unless the Pod is already gone.
  unfoldable pub tolerate_missing : Option ApiError → M W SimpleApp (Unit {0})
  tolerate_missing none = pure tt
  tolerate_missing (some e) = if is_not_found e then pure tt else throw e

  unfoldable pub delete_pods : List Pod → M W SimpleApp (Unit {0})
  delete_pods [] = pure tt
  delete_pods (pod ∷ pods) = do e ← delete api pod; tolerate_missing e; delete_pods pods

  -- It only writes a log entry.
  unfoldable pub cleanup_external_resources : SimpleApp → M W SimpleApp (Unit {0})
  cleanup_external_resources app = pure tt

  -- Steps 4 and 5 of `handleDeletion`.
  unfoldable pub release : SimpleApp → M W SimpleApp CtrlResult
  release app = do
    cleanup_external_resources app
    e ← update api (record app { meta = lib.remove_finalizer app.meta finalizer_name })
    check e
    pure no_requeue

  -- Step 3: as long as Pods were listed, come back in five seconds.
  unfoldable pub wait_or_release : SimpleApp → List Pod → M W SimpleApp CtrlResult
  wait_or_release app [] = release app
  wait_or_release app (_ ∷ _) = pure (record { requeue = false; requeue_after = 5 * second })

  -- Steps 1 to 5 of `handleDeletion`.
  unfoldable pub clean_up : SimpleApp → M W SimpleApp CtrlResult
  clean_up app = do
    listed ← list api app.meta.namespace (pod_labels app)
    items ← value_of listed
    delete_pods items
    wait_or_release app items

  unfoldable pub handle_deletion : SimpleApp → M W SimpleApp CtrlResult
  handle_deletion app =
      if lib.contains_finalizer app.meta finalizer_name then clean_up app else pure no_requeue

  unfoldable pub add_finalizer : SimpleApp → M W SimpleApp CtrlResult
  add_finalizer app = do
    e ← update api (record app { meta = lib.add_finalizer app.meta finalizer_name })
    check e
    pure (record { requeue = true; requeue_after = 0 })

  -- Steps 4 to 6 of `Reconcile`.
  unfoldable pub maintain : SimpleApp → M W SimpleApp CtrlResult
  maintain app = do
    reconcile_pods app
    e ← update_status api (record app { ready = true; observed_generation = app.meta.generation })
    check e
    pure (record { requeue = false; requeue_after = 5 * 60 * second })

  unfoldable pub reconcile_found : SimpleApp → M W SimpleApp CtrlResult
  reconcile_found app = elim app.meta.deletion_timestamp [
    | some _ ↦ handle_deletion app
    | none ↦
        if lib.contains_finalizer app.meta finalizer_name then maintain app else add_finalizer app
  ]

  unfoldable pub reconcile_got : Result SimpleApp → M W SimpleApp CtrlResult
  reconcile_got (ok app) = reconcile_found app
  reconcile_got (err e) = if is_not_found e then pure no_requeue else throw e

  unfoldable pub reconcile : NamespacedName → M W SimpleApp CtrlResult
  reconcile req = do got ← get api req; reconcile_got got
