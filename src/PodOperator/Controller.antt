-- ===== src/PodOperator/Controller.antt =====
-- pod-operator/controllers/podmanager_controller.go. The API server and controller-runtime's helpers
-- are parameters; logging is left out.
use kubernetes_examples.Prelude.{
  ℕ, zero, suc, ◌*◌, String, Bool, true, false, ◌&&◌, List, [], ◌∷◌, Option, none, some, StringMap,
  if◌then◌else◌, str_eq, get_elem?, length,
}
use kubernetes_examples.Prelude.Int.{ℤ, pos, negsuc, ltb_ℤ, eqb_ℤ, suc_ℤ, rounds, to_int32}
use kubernetes_examples.Prelude.Decimal.{◌⧺◌, format_int}
use kubernetes_examples.Kube.Objects.{NamespacedName, Pod, PodStatusCondition}
use kubernetes_examples.Kube.Effect.{
  ApiError, is_not_found, error_text, Result, ok, err, M, pure, throw, crash, ◌>>=◌, ◌>>◌, check,
  value_of,
}
use kubernetes_examples.Kube.Client.{
  CtrlResult, no_requeue, second, Client, MetaLib, get, update, update_status, list, create, delete,
  eventf,
}
use kubernetes_examples.PodOperator.Types.{
  PodCondition, PodManagerStatus, PodManager, pod_manager_kind, set_condition,
}

abbrev pub finalizer_name : String
finalizer_name = "podmanager.mycompany.com/finalizer"

unfoldable pub owner_labels : PodManager → StringMap
owner_labels pm =
    ("app", "my-app") ∷ ("podmanager", pm.meta.name) ∷ ("podmanager-uid", pm.meta.uid) ∷ []

unfoldable pub new_pod_for_pod_manager : MetaLib → PodManager → ℤ → Pod
unfolding owner_labels
new_pod_for_pod_manager lib pm i = record {
  meta = record {
    name = pm.meta.name ⧺ "-" ⧺ format_int i;
    namespace = pm.meta.namespace;
    uid = "";
    generation = 0;
    labels = owner_labels pm;
    finalizers = [];
    deletion_timestamp = none;
    owner_references = lib.new_controller_ref pm.meta pod_manager_kind ∷ [];
  };
  containers = record { name = "app"; image = pm.spec.image; container_ports = 80 ∷ [] } ∷ [];
  restart_policy = "Always";
  phase = "";
  conditions = [];
}

unfoldable pub is_ready_condition : PodStatusCondition → Bool
is_ready_condition c = str_eq c.type "Ready" && str_eq c.status "True"

-- The inner loop over a Pod's conditions; `break` keeps a Pod from being counted twice.
unfoldable pub has_ready : List PodStatusCondition → Bool
has_ready [] = false
has_ready (c ∷ cs) = let rest = has_ready cs in if is_ready_condition c then true else rest

unfoldable pub pod_is_ready : Pod → Bool
pod_is_ready p = if str_eq p.phase "Running" then has_ready p.conditions else false

unfoldable pub count_ready : List Pod → ℕ
count_ready [] = 0
count_ready (p ∷ ps) = let rest = count_ready ps in if pod_is_ready p then suc rest else rest

-- The Ready condition that step 6 sets.
unfoldable pub ready_condition : ℤ → ℤ → ℕ → PodCondition
ready_condition ready desired time =
    if eqb_ℤ ready desired && ltb_ℤ (pos 0) desired
    then record {
      type = "Ready";
      status = "True";
      last_transition_time = time;
      message = "All Pods are ready";
    }
    else record {
      type = "Ready";
      status = "False";
      last_transition_time = time;
      message = format_int ready ⧺ "/" ⧺ format_int desired ⧺ " Pods are ready";
    }

unfoldable pub new_status : PodManager → ℤ → ℤ → ℕ → PodManagerStatus
new_status pm ready current time =
    set_condition (ready_condition ready pm.spec.replicas time)
      (record (pm.status) { ready_replicas = ready; current_replicas = current })

-- `podList.Items[i]`; `none` is an index out of range, at which Go panics.
unfoldable pub item_at : List Pod → ℤ → Option Pod
item_at items (pos i) = get_elem? items i
item_at items (negsuc _) = none

module _ {W : Type 0} (api : Client W PodManager) (lib : MetaLib) where
  unfoldable pub report_created : Pod → Option ApiError → M W PodManager (Unit {0})
  report_created pod none = eventf "Normal" "Created" ("Created pod " ⧺ pod.meta.name)
  report_created pod (some e) = do
    eventf "Warning" "Failed" ("Failed to create pod " ⧺ pod.meta.name ⧺ ": " ⧺ error_text e)
    throw e

  -- `for i := currentReplicas; i < desiredReplicas; i++`, by the rounds left.
  unfoldable pub create_pods : PodManager → ℕ → ℤ → M W PodManager (Unit {0})
  create_pods pm zero i = pure tt
  create_pods pm (suc n) i = do
    let pod = new_pod_for_pod_manager lib pm i
    e ← create api pod
    report_created pod e
    create_pods pm n (suc_ℤ i)

  unfoldable pub report_deleted : Pod → Option ApiError → M W PodManager (Unit {0})
  report_deleted pod none = eventf "Normal" "Deleted" ("Deleted pod " ⧺ pod.meta.name)
  report_deleted pod (some e) = do
    eventf "Warning" "Failed" ("Failed to delete pod " ⧺ pod.meta.name ⧺ ": " ⧺ error_text e)
    throw e

  -- `for i := desiredReplicas; i < currentReplicas; i++`, by the rounds left.
  unfoldable pub delete_extra : List Pod → ℕ → ℤ → M W PodManager (Unit {0})
  delete_extra items zero i = pure tt
  delete_extra items (suc n) i = elim (item_at items i) [
    | none ↦ crash
    | some pod ↦ do e ← delete api pod; report_deleted pod e; delete_extra items n (suc_ℤ i)
  ]

  -- Step 5: adjust the number of Pods.
  unfoldable pub adjust_pods : PodManager → List Pod → M W PodManager (Unit {0})
  adjust_pods pm items =
      let desired = pm.spec.replicas in
      let current = to_int32 (length items) in
      if ltb_ℤ current desired
      then create_pods pm (rounds current desired) current
      else if ltb_ℤ desired current
      then delete_extra items (rounds desired current) desired
      else pure tt

  -- Step 6: `Conditions[0]` is read for its time, which panics where there are no conditions.
  unfoldable pub sync_status : PodManager → List Pod → M W PodManager (Unit {0})
  sync_status pm items = elim (get_elem? pm.status.conditions 0) [
    | none ↦ crash
    | some c ↦ do
      let ready = to_int32 (count_ready items)
      let current = to_int32 (length items)
      e ←
          update_status api
            (record pm { status = new_status pm ready current c.last_transition_time })
      check e
  ]

  unfoldable pub report_deleting : Pod → Option ApiError → M W PodManager (Unit {0})
  report_deleting pod none = eventf "Normal" "Deleting" ("Deleting pod " ⧺ pod.meta.name)
  report_deleting pod (some e) = if is_not_found e then pure tt else throw e

  -- The loop of `handleFinalizer` over the listed Pods.
  unfoldable pub delete_owned : List Pod → M W PodManager (Unit {0})
  delete_owned [] = pure tt
  delete_owned (pod ∷ pods) = do e ← delete api pod; report_deleting pod e; delete_owned pods

  -- The body of `handleFinalizer` behind its test.
  unfoldable pub clean_up : PodManager → M W PodManager CtrlResult
  clean_up pm = do
    listed ← list api pm.meta.namespace (owner_labels pm)
    items ← value_of listed
    delete_owned items
    e ← update api (record pm { meta = lib.remove_finalizer pm.meta finalizer_name })
    check e
    pure no_requeue

  unfoldable pub handle_finalizer : PodManager → M W PodManager CtrlResult
  handle_finalizer pm =
      if lib.contains_finalizer pm.meta finalizer_name then clean_up pm else pure no_requeue

  -- Step 3: add the finalizer, and come back.
  unfoldable pub add_finalizer : PodManager → M W PodManager CtrlResult
  add_finalizer pm = do
    e ← update api (record pm { meta = lib.add_finalizer pm.meta finalizer_name })
    check e
    pure (record { requeue = true; requeue_after = 0 })

  -- Steps 4 to 7.
  unfoldable pub manage_pods : NamespacedName → PodManager → M W PodManager CtrlResult
  manage_pods req pm = do
    listed ← list api req.namespace (owner_labels pm)
    items ← value_of listed
    adjust_pods pm items
    sync_status pm items
    pure (record { requeue = false; requeue_after = 30 * second })

  -- Steps 2 and 3, on a PodManager that was found.
  unfoldable pub reconcile_found : NamespacedName → PodManager → M W PodManager CtrlResult
  reconcile_found req pm = elim pm.meta.deletion_timestamp [
    | some _ ↦ handle_finalizer pm
    | none ↦
        if lib.contains_finalizer pm.meta finalizer_name
        then manage_pods req pm
        else add_finalizer pm
  ]

  unfoldable pub reconcile_got : NamespacedName → Result PodManager → M W PodManager CtrlResult
  reconcile_got req (ok pm) = reconcile_found req pm
  reconcile_got req (err e) = if is_not_found e then pure no_requeue else throw e

  unfoldable pub reconcile : NamespacedName → M W PodManager CtrlResult
  reconcile req = do got ← get api req; reconcile_got req got
