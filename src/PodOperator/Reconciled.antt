-- ===== src/PodOperator/Reconciled.antt =====
-- `Reconcile` as a whole on a server that answers every call.
use kubernetes_examples.Prelude.{
  ◌∙◌, ap, ◌*◌, false, ◌≤◌, true, ℕ, ◌≡◌, refl, List, ◌∷◌, length, none,
}
use kubernetes_examples.Prelude.Int.{int32_max, pos, to_int32}
use kubernetes_examples.Kube.Objects.{NamespacedName, Pod}
use kubernetes_examples.Kube.Effect.{ok, done, pure, ◌>>◌}
use kubernetes_examples.Kube.Client.{second, Client, MetaLib}
use kubernetes_examples.PodOperator.Types.{PodCondition, PodManager}
use kubernetes_examples.PodOperator.Controller.{
  adjust_pods, new_pod_for_pod_manager, finalizer_name, owner_labels, manage_pods, reconcile_got,
  reconcile, sync_status, new_status, count_ready,
}
use kubernetes_examples.PodOperator.Convergence.{adjust_pods-converges, IsFree, IsApart, PodServer}
use kubernetes_examples.PodOperator.Status.{soon, found_managed}

module _ {W : Type 0} (api : Client W PodManager) (lib : MetaLib) (server : PodServer api lib) where
  -- The server writes every status, and writing a status puts no Pod into deletion.
  abbrev pub WritesStatus : Type 0
  WritesStatus =
      (x : PodManager) (w : W)
      → ((api.update_status x w).0 ≡ none)
        × (server.alive (api.update_status x w).1 ≡ server.alive w)

  finish :
      (pm : PodManager) (items : List Pod) (c : PodCondition) (cs : List PodCondition) (w : W)
      → WritesStatus
      → pm.status.conditions ≡ c ∷ cs
      → let run = ◌>>◌ (sync_status api lib pm items) (pure soon) w in
        (run.0 ≡ done soon) × (server.alive run.2 ≡ server.alive w)
  unfolding sync_status
  finish pm items c cs w writes held =
      let status =
        new_status pm (to_int32 (count_ready items)) (to_int32 (length items))
          c.last_transition_time in
      let (written, left) = writes (record pm { status = status }) w in
      rw (sync_status, held, written) (refl, left)

  -- On a server that answers every call and writes every status, let the PodManager that is read be kept,
  -- bear the finalizer and have a condition, and want a number of Pods that is not negative; let the listed
  -- Pods be those that the server stores, none of them in deletion, let them fit an int32 and differ in their
  -- names, and the numbers from theirs on be free. Then one reconciliation ends with no error and asks for
  -- another in 30 seconds, and as many Pods are alive, that is not in deletion, as are wanted.
  pub reconcile-converges :
      (req : NamespacedName) (pm : PodManager) (c : PodCondition) (cs : List PodCondition) (d : ℕ)
      (items : List Pod) (w : W)
      → let w2 = (api.list req.namespace (owner_labels pm) (api.get req w).1).1 in
        WritesStatus
        → (api.get req w).0 ≡ ok pm
        → pm.meta.deletion_timestamp ≡ none
        → lib.contains_finalizer pm.meta finalizer_name ≡ true
        → pm.status.conditions ≡ c ∷ cs
        → pm.spec.replicas ≡ pos d
        → (api.list req.namespace (owner_labels pm) (api.get req w).1).0 ≡ ok items
        → server.present w2 ≡ items
        → server.alive w2 ≡ items
        → length items ≤ int32_max
        → IsApart items
        → ((j : ℕ)
            → length items ≤ j
            → IsFree (new_pod_for_pod_manager lib pm (pos j)).meta.name items)
        → let run = reconcile api lib req w in
          (run.0 ≡ done (record { requeue = false; requeue_after = 30 * second }))
          × (length (server.alive run.2) ≡ d)
  unfolding reconcile reconcile_got manage_pods
  reconcile-converges req pm c cs d items w writes got kept owned held wanted listed stored living
        fits apart free =
      let w2 = (api.list req.namespace (owner_labels pm) (api.get req w).1).1 in
      let (adjusted, count) =
        adjust_pods-converges api lib server pm d items w2 wanted stored living fits apart free in
      let w3 = (adjust_pods api lib pm items w2).2 in
      let (ends, left) = finish pm items c cs w3 writes held in
      let managed = found_managed api lib req pm items w got kept owned listed adjusted in
      rw (got, managed, listed, adjusted) (ends, ap length left ∙ count)
