-- ===== src/PodOperator/Tests.antt =====
-- The theorems about the pod operator at concrete clusters, and runs of the controller.
use kubernetes_examples.Prelude.{
  ℕ, String, ◌≡◌, ◌≢◌, ◌⊎◌, ◌↔◌, refl, List, [], ◌∷◌, Option, none, some, true, arith, str_eq,
}
use kubernetes_examples.Prelude.Int.{pos, ltb_ℤ, to_int32}
use kubernetes_examples.Prelude.Decimal.{format_int}
use kubernetes_examples.Kube.Objects.{NamespacedName, ObjectMeta, Pod}
use kubernetes_examples.Kube.Effect.{done, ApiError, fail, panic, already_exists, ok}
use kubernetes_examples.Kube.Client.{Client}
use kubernetes_examples.Kube.Store.{Store, store_client, plain_meta}
use kubernetes_examples.Kube.Trace.{creates, deletes, updates, status_updates}
use kubernetes_examples.PodOperator.Types.{
  PodCondition, PodManager, set_condition, remove_condition,
}
use kubernetes_examples.PodOperator.Controller.{
  sync_status, report_deleting, delete_owned, clean_up, handle_finalizer, reconcile_found,
  reconcile_got, report_created, create_pods, finalizer_name, new_pod_for_pod_manager, new_status,
  adjust_pods, manage_pods, reconcile,
}
use kubernetes_examples.PodOperator.Conditions.{
  find_condition, refreshed, IsDistinct, conditions_are_map,
}
use kubernetes_examples.PodOperator.Scaling.{adjust_pods-exact, taken_name_blocks}
use kubernetes_examples.PodOperator.Deletion.{
  IsReleaseAfter, finalizer_after_pods, creates_need_finalizer,
}
use kubernetes_examples.PodOperator.Readiness.{ReadyCount}
use kubernetes_examples.PodOperator.Status.{
  new_status-ready_iff, empty_conditions_panic, status_written,
}

abbrev pub stale : PodCondition
stale = record { type = "Ready"; status = "False"; last_transition_time = 3; message = "0/2" }

abbrev fresh : PodCondition
fresh = record { type = "Ready"; status = "True"; last_transition_time = 9; message = "all" }

abbrev manager_meta : Option ℕ → List String → ObjectMeta
manager_meta time finalizers = record {
  name = "web";
  namespace = "default";
  uid = "u1";
  generation = 1;
  labels = [];
  finalizers = finalizers;
  deletion_timestamp = time;
  owner_references = [];
}

abbrev manager : Option ℕ → List String → ℕ → List PodCondition → PodManager
manager time finalizers n conditions = record {
  meta = manager_meta time finalizers;
  spec = record { replicas = pos n; image = "nginx" };
  status = record { ready_replicas = pos 0; current_replicas = pos 0; conditions = conditions };
}

abbrev owned : List String
owned = finalizer_name ∷ []

abbrev running : ℕ → PodManager → Pod
running i pm = new_pod_for_pod_manager plain_meta pm (pos i)

abbrev pub key : NamespacedName
key = record { namespace = "default"; name = "web" }

abbrev pub cluster : PodManager → List Pod → Store PodManager
cluster pm pods = record { object = some pm; pods = pods }

abbrev cluster_api : Client (Store PodManager) PodManager
cluster_api = store_client

abbrev two : PodManager
two = manager none owned 2 (stale ∷ [])

abbrev pair : List Pod
pair = running 0 two ∷ running 1 two ∷ []

conditions_are_map_example :
    IsDistinct (set_condition fresh two.status).conditions
    × (find_condition "Ready" (set_condition fresh two.status).conditions ≡ some fresh)
    × (find_condition "Ready" (remove_condition "Ready" two.status).conditions ≡ none)
unfolding find_condition refreshed str_eq
conditions_are_map_example = conditions_are_map "Ready" "Ready" fresh two.status (tt, tt)

-- One Pod too few.
abbrev pub three : PodManager
three = manager none owned 3 (stale ∷ [])

abbrev one_short : List Pod
one_short = running 0 three ∷ running 1 three ∷ []

adjust_pods-exact_example :
    let run = adjust_pods store_client plain_meta three one_short (cluster three one_short) in
    ((e : ApiError) × (run.0 ≡ fail e))
    ⊎ ((run.0 ≡ done tt) × (creates run.1 ≡ running 2 three ∷ []) × (deletes run.1 ≡ []))
unfolding new_pod_for_pod_manager plain_meta str_eq format_int
adjust_pods-exact_example =
    adjust_pods-exact store_client plain_meta three one_short 3 refl (omega arith)
      (cluster three one_short)

-- Pod 0 is gone, so two of three are left, and the one to create bears the name of the last.
abbrev gap : List Pod
gap = running 1 three ∷ running 2 three ∷ []

taken_name_blocks_example :
    let run = manage_pods store_client plain_meta key three (cluster three gap) in
    (run.0 ≡ fail (already_exists "pod exists"))
    × (creates run.1 ≡ running 2 three ∷ [])
    × (deletes run.1 ≡ [])
    × (status_updates run.1 ≡ [])
    × (run.2 ≡ cluster three gap)
unfolding store_client new_pod_for_pod_manager plain_meta str_eq format_int
taken_name_blocks_example =
    taken_name_blocks store_client plain_meta three gap 3 refl (omega arith) key (cluster three gap)
      "pod exists" (omega arith) refl refl

abbrev leaving : PodManager
leaving = manager (some 7) owned 2 (stale ∷ [])

finalizer_after_pods_example :
    let run = reconcile store_client plain_meta key (cluster leaving pair) in
    (updates run.1 ≡ []) ⊎ IsReleaseAfter cluster_api plain_meta leaving pair run.1
unfolding store_client plain_meta str_eq
finalizer_after_pods_example =
    finalizer_after_pods store_client plain_meta key leaving 7 pair (cluster leaving pair) refl refl
      refl refl

-- The second case is the one that happens.
leaving_run :
    updates (reconcile store_client plain_meta key (cluster leaving pair)).1
    ≡ manager (some 7) [] 2 (stale ∷ []) ∷ []
unfolding reconcile updates store_client plain_meta str_eq new_pod_for_pod_manager reconcile_got
    reconcile_found handle_finalizer clean_up delete_owned report_deleting format_int
leaving_run = refl

one_created :
    creates (reconcile store_client plain_meta key (cluster three one_short)).1
    ≡ running 2 three ∷ []
unfolding reconcile creates reconcile_got store_client reconcile_found plain_meta str_eq manage_pods
    adjust_pods to_int32 create_pods report_created new_pod_for_pod_manager format_int sync_status
one_created = refl

some_created : creates (reconcile store_client plain_meta key (cluster three one_short)).1 ≢ []
some_created e = cc (one_created)

creates_need_finalizer_example :
    (pm : PodManager) × ((cluster_api.get key (cluster three one_short)).0 ≡ ok pm)
    × (pm.meta.deletion_timestamp ≡ none)
    × (plain_meta.contains_finalizer pm.meta finalizer_name ≡ true)
creates_need_finalizer_example =
    creates_need_finalizer store_client plain_meta key (cluster three one_short) some_created

new_status-ready_iff_example :
    (c : PodCondition) × (find_condition "Ready" (new_status two (pos 2) (pos 2) 3).conditions
      ≡ some c)
    × ((c.status ≡ "True") ↔ ((pos 2 ≡ pos 2) × (ltb_ℤ (pos 0) (pos 2) ≡ true)))
new_status-ready_iff_example = new_status-ready_iff two (pos 2) (pos 2) 3

-- A PodManager that was just admitted has no conditions.
abbrev new_manager : PodManager
new_manager = manager none owned 2 []

abbrev new_pods : List Pod
new_pods = running 0 new_manager ∷ running 1 new_manager ∷ []

empty_conditions_panic_example :
    let run = reconcile store_client plain_meta key (cluster new_manager new_pods) in
    (run.0 ≡ panic) × (status_updates run.1 ≡ [])
unfolding store_client plain_meta str_eq new_pod_for_pod_manager adjust_pods to_int32
empty_conditions_panic_example =
    empty_conditions_panic store_client plain_meta key new_manager new_pods
      (cluster new_manager new_pods) refl refl refl refl refl refl

-- One of the two Pods is running and ready.
abbrev half_ready : List Pod
half_ready =
    record (running 0 two) {
      phase = "Running";
      conditions = record { type = "Ready"; status = "True" } ∷ [];
    }
    ∷ running 1 two
    ∷ []

status_written_example :
    (x : PodManager) × (n : ℕ) × (r : PodCondition) × (status_updates
        (reconcile store_client plain_meta key (cluster two half_ready)).1
      ≡ x ∷ [])
    × ReadyCount half_ready n
    × (x.meta ≡ two.meta)
    × (x.spec ≡ two.spec)
    × (x.status.ready_replicas ≡ to_int32 n)
    × (x.status.current_replicas ≡ to_int32 2)
    × (find_condition "Ready" x.status.conditions ≡ some r)
    × ((r.status ≡ "True") ↔ ((to_int32 n ≡ pos 2) × (ltb_ℤ (pos 0) (pos 2) ≡ true)))
unfolding store_client plain_meta str_eq new_pod_for_pod_manager adjust_pods to_int32
status_written_example =
    status_written store_client plain_meta key two half_ready (cluster two half_ready) refl refl
      refl refl refl refl
